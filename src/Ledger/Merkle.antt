-- ===== src/Ledger/Merkle.antt =====
-- `merkleRoot`: the commitments as buffers, sorted, then hashed in pairs, layer by layer. A buffer
-- is its hexadecimal text, which sorts as its bytes do; `sha256_node` is the digest of two buffers.
use px.Prelude.{ℕ, zero, suc, String, Bool, ◌||◌, List, [], ◌∷◌, map, length, if◌then◌else◌}
use px.Prelude.Text.{str_eq, ◌<>◌}
use px.Ledger.State.{Config, hash}
use Prim.Native.String
use text.Mathlib.Text.{is_lt}

-- `value.slice(2)`
abbrev drop_one : String → String
drop_one String.[] = ""
drop_one (String.◌∷◌ _ s) = s

abbrev slice_two : String → String
slice_two s = drop_one (drop_one s)

-- `Buffer.compare(s, t) <= 0`
abbrev pub text_le : String → String → Bool
text_le s t = is_lt (String.compare s t) || str_eq s t

unfoldable pub insert_sorted : String → List String → List String
insert_sorted x [] = x ∷ []
insert_sorted x (y ∷ ys) = if text_le x y then x ∷ y ∷ ys else y ∷ insert_sorted x ys

-- `.sort(Buffer.compare)`
unfoldable pub sorted : List String → List String
unfolding insert_sorted
sorted [] = []
sorted (x ∷ xs) = insert_sorted x (sorted xs)

-- One pass of the outer loop: an odd last node is paired with itself.
unfoldable pub next_layer : Config → List String → List String
next_layer cfg [] = []
next_layer cfg (left ∷ []) = cfg.sha256_node left left ∷ []
next_layer cfg (left ∷ right ∷ rest) = cfg.sha256_node left right ∷ next_layer cfg rest

-- A layer of n > 1 nodes has fewer than n above it, so n rounds are enough.
unfoldable pub root_loop : Config → ℕ → List String → String
root_loop cfg fuel [] = ""
root_loop cfg fuel (root ∷ []) = root
root_loop cfg zero (a ∷ b ∷ rest) = ""
root_loop cfg (suc fuel) (a ∷ b ∷ rest) = root_loop cfg fuel (next_layer cfg (a ∷ b ∷ rest))

unfoldable pub merkle_root : Config → List String → String
unfolding root_loop next_layer sorted
merkle_root cfg [] = hash cfg ""
merkle_root cfg (v ∷ vs) =
    let layer = sorted (map slice_two (v ∷ vs)) in "0x" <> root_loop cfg (length layer) layer
