-- ===== src/Journal/Methods.antt =====
-- The journal's methods, in the order of the class.
use px.Prelude.{
  ℕ, ◌+◌, String, Bool, not, ◌&&◌, ◌||◌, Option, none, some, List, [], ◌∷◌, ◌++◌, map, any, keep,
  is_some, or_else, leb, ◌==◌, if◌then◌else◌,
}
use px.Prelude.Text.{str_eq, to_lower, starts_with}
use px.Prelude.Dict.{Dict, lookup, insert, erase}
use px.Prelude.Action.{Result, ok, err, pure, gets, ◌>>=◌, ◌>>◌}
use px.Journal.State.{
  JournalEntry, EncryptedJournalRecord, EpochHandle, Cipher, Journal, JournalEnv, JournalError,
  key_file_failed, data_file_failed, key_missing, data_missing, bad_tag, invalid_epoch_id,
  not_memory_backed, removal_failed, JournalAction, Removal,
}
use Prim.Native.Char.{code}

-- `assertReady` on a Linux host: 0x01021994 is the magic number of tmpfs.
pub assert_ready : Bool → Bool → ℕ → Result JournalError (Unit {0})
assert_ready require_memory_backed is_linux filesystem_type =
    if not require_memory_backed || not is_linux
    then ok tt
    else if filesystem_type == 0x01021994
    then ok tt
    else err not_memory_backed

unfoldable pub new_epoch : JournalEnv → String → JournalAction EpochHandle
new_epoch env asset j =
    let epoch : EpochHandle = record { id = env.random_id; key = env.random_key } in
    if env.key_written && not (is_some (lookup env.random_id j.key_files))
    then (
      ok epoch,
      record j {
        key_files = insert env.random_id env.random_key j.key_files;
        keys = insert env.random_id env.random_key j.keys;
        active_by_asset = insert asset epoch j.active_by_asset;
      },
    )
    else (err key_file_failed, j)

abbrev pub or_new : JournalEnv → String → Option EpochHandle → JournalAction EpochHandle
or_new env asset none = new_epoch env asset
or_new env asset (some epoch) = pure epoch

-- The flag `wx` refuses to overwrite a key file.
unfoldable pub ensure_epoch : JournalEnv → String → JournalAction EpochHandle
unfolding new_epoch
ensure_epoch env asset = do
  existing ← gets (λ j. lookup (to_lower asset) j.active_by_asset)
  or_new env (to_lower asset) existing

unfoldable pub append_record :
    JournalEnv → String → EncryptedJournalRecord → JournalAction (Unit {0})
append_record env id r j =
    if env.data_written
    then (
      ok tt,
      record j {
        data_files = insert id (or_else (lookup id j.data_files) [] ++ r ∷ []) j.data_files;
      },
    )
    else (err data_file_failed, j)

-- `append`: returns the identifier of the epoch that took the entry.
unfoldable pub append : Cipher → JournalEnv → String → JournalEntry → JournalAction String
unfolding ensure_epoch append_record
append cipher env asset entry = do
  epoch ← ensure_epoch env asset
  append_record env epoch.id (cipher.encrypt epoch.key env.random_iv entry)
  pure epoch.id

-- `seal` (renamed: the next append opens a new epoch for the asset).
unfoldable pub seal_asset : String → Journal → Option String × Journal
seal_asset asset j = (
  elim (lookup (to_lower asset) j.active_by_asset) [ none ↦ none | some epoch ↦ some epoch.id ],
  record j { active_by_asset = erase (to_lower asset) j.active_by_asset },
)

lower_hex_code : ℕ → Bool
lower_hex_code n = (leb b'0' n && leb n b'9') || (leb b'a' n && leb n b'f')

lower_hex_count : ℕ → String → Bool
unfolding lower_hex_code
lower_hex_count n String.[] = n == 32
lower_hex_count n (String.◌∷◌ c s) = lower_hex_code (code c) && lower_hex_count (n + 1) s

-- `/^[a-f0-9]{32}$/.test(epochId)`
unfoldable pub is_epoch_id : String → Bool
unfolding lower_hex_count
is_epoch_id s = lower_hex_count 0 s

abbrev pub key_or_file : Option String → Option String → Result JournalError String
key_or_file (some key) _ = ok key
key_or_file none (some key) = ok key
key_or_file none none = err key_missing

abbrev pub decrypt_all :
    Cipher → String → List EncryptedJournalRecord → Result JournalError (List JournalEntry)
decrypt_all cipher key [] = ok []
decrypt_all cipher key (r ∷ rs) = elim (cipher.decrypt key r) [
  | none ↦ err bad_tag
  | some e ↦ elim (decrypt_all cipher key rs) [ ok es ↦ ok (e ∷ es) | err x ↦ err x ]
]

abbrev pub decrypt_file :
    Cipher
    → Result JournalError String
    → Option (List EncryptedJournalRecord)
    → Result JournalError (List JournalEntry)
decrypt_file cipher (err e) _ = err e
decrypt_file cipher (ok key) none = err data_missing
decrypt_file cipher (ok key) (some rs) = decrypt_all cipher key rs

-- `read`
unfoldable pub read : Cipher → String → Journal → Result JournalError (List JournalEntry)
read cipher id j =
    if is_epoch_id id
    then decrypt_file cipher (key_or_file (lookup id j.keys) (lookup id j.key_files))
        (lookup id j.data_files)
    else err invalid_epoch_id

unfoldable pub erase_active : String → Dict EpochHandle → Dict EpochHandle
erase_active id [] = []
erase_active id ((asset, epoch) ∷ d) =
    if str_eq epoch.id id then erase_active id d else (asset, epoch) ∷ erase_active id d

abbrev removed_from : {V : Type 0} → Bool → String → Dict V → Dict V
removed_from b id d = if b then erase id d else d

-- The body of the loop of `burn`: the key is dropped from memory, then both files are removed, as
-- far as the removals succeed.
unfoldable pub burn_epoch : Removal → String → Journal → Journal
unfolding erase_active
burn_epoch r id j = record {
  active_by_asset = erase_active id j.active_by_asset;
  keys = erase id j.keys;
  key_files = removed_from r.key_removed id j.key_files;
  data_files = removed_from r.data_removed id j.data_files;
}

abbrev pub is_removed : Removal → Bool
is_removed r = r.key_removed && r.data_removed

unfoldable pub burn_loop : (String → Removal) → List String → ℕ → JournalAction ℕ
burn_loop removal [] burned j = (ok burned, j)
burn_loop removal (id ∷ ids) burned j =
    let next = burn_epoch (removal id) id j in
    let after_skip = burn_loop removal ids burned j in
    let after_burn = burn_loop removal ids (burned + 1) next in
    if starts_with id "legacy-"
    then after_skip
    else if not (is_epoch_id id)
    then (err invalid_epoch_id, j)
    else if is_removed (removal id)
    then after_burn
    else (err removal_failed, next)

-- `[...new Set(xs)]`: the first occurrences.
abbrev pub unique_from : List String → List String → List String
unique_from seen [] = []
unique_from seen (x ∷ xs) =
    if any (str_eq x) seen then unique_from seen xs else x ∷ unique_from (x ∷ seen) xs

unfoldable pub unique : List String → List String
unique = unique_from []

-- `burn`
unfoldable pub burn : (String → Removal) → List String → JournalAction ℕ
burn removal ids = burn_loop removal (unique ids) 0

-- `burnOrphans`: every epoch with a file in the directory that no ledger transfer refers to, after
-- `assertReady` and the listing of the directory have answered `ready`.
unfoldable pub burn_orphans :
    (String → Removal) → Result JournalError (Unit {0}) → List String → JournalAction ℕ
burn_orphans removal ready referenced = do
  (λ j. (ready, j))
  files ← gets (λ j. map (λ e. e.0) j.key_files ++ map (λ e. e.0) j.data_files)
  burn removal (keep (λ id. not (any (str_eq id) referenced)) (keep is_epoch_id (unique files)))

pub close : Journal → Journal
close j = record j { keys = []; active_by_asset = [] }
