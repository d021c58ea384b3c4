-- ===== src/Journal/Tests.antt =====
-- The journal's theorems at a sample epoch.
use px.Prelude.{String, ◌≡◌, refl, true, List, [], ◌∷◌, none}
use px.Prelude.Action.{ok, err}
use px.Journal.State.{Journal, Cipher, EncryptedJournalRecord, Removal, key_missing}
use px.Journal.Methods.{burn, burn_loop, unique, is_epoch_id, read}
use px.Journal.Erasure.{IsErased, burn-erases}

abbrev sample_record : EncryptedJournalRecord
sample_record = record { iv = "iv"; tag = "tag"; ciphertext = "text" }

abbrev sample_cipher : Cipher
sample_cipher = record { encrypt = λ key iv e. sample_record; decrypt = λ key r. none }

abbrev sample_epoch : String
sample_epoch = "0123456789abcdef0123456789abcdef"

abbrev sample_journal : Journal
sample_journal = record {
  active_by_asset = ("base:0xusdc", record { id = sample_epoch; key = "key" }) ∷ [];
  keys = (sample_epoch, "key") ∷ [];
  key_files = (sample_epoch, "key") ∷ [];
  data_files = (sample_epoch, sample_record ∷ []) ∷ [];
}

abbrev burned : List String
burned = "legacy-1" ∷ sample_epoch ∷ sample_epoch ∷ []

sample_epoch-named : is_epoch_id sample_epoch ≡ true
unfolding is_epoch_id
sample_epoch-named = refl

abbrev removes_all : String → Removal
removes_all id = record { key_removed = true; data_removed = true }

burned_once : (burn removes_all burned sample_journal).0 ≡ ok 1
unfolding burn burn_loop unique is_epoch_id
burned_once = refl

burn-erases_example :
    IsErased sample_epoch (burn removes_all burned sample_journal).1
    × (read sample_cipher sample_epoch (burn removes_all burned sample_journal).1 ≡ err key_missing)
burn-erases_example =
    burn-erases sample_cipher removes_all sample_epoch burned 1 sample_journal refl
      sample_epoch-named refl burned_once
