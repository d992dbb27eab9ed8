-- ===== src/Vault/Wiped.antt =====
-- What `Zero` of internal/vault/client.go leaves in the arrays: zeros, at the same lengths.
use pregao.Prelude.{suc, ◌≡◌, refl, ap, List, [], ◌∷◌, map, length, All}
use pregao.Vault.Plaintext.{Bytes, wipe}

-- Bytes that are all zero.
abbrev pub IsWiped : Bytes → Type 0
IsWiped bs = All (λ b. b ≡ 0) bs

-- All the arrays of all the credentials are wiped.
abbrev pub AllWiped : List (List Bytes) → Type 0
AllWiped groups = All (λ arrays. All IsWiped arrays) groups

pub wipe-IsWiped : (bs : Bytes) → IsWiped (wipe bs)
unfolding wipe
wipe-IsWiped [] = tt
wipe-IsWiped (b ∷ bs) = (refl, wipe-IsWiped bs)

length-wipe : (bs : Bytes) → length (wipe bs) ≡ length bs
unfolding wipe
length-wipe [] = refl
length-wipe (b ∷ bs) = ap suc (length-wipe bs)

-- The arrays of two lists have the same lengths, and those of the first are wiped.
abbrev pub Wiped : List Bytes → List Bytes → Type 0
Wiped [] [] = Unit
Wiped (w ∷ ws) (b ∷ bs) = IsWiped w × (length w ≡ length b) × Wiped ws bs
Wiped _ _ = ⊥

pub map-wipe-Wiped : (bs : List Bytes) → Wiped (map wipe bs) bs
unfolding wipe
map-wipe-Wiped [] = tt
map-wipe-Wiped (b ∷ bs) = (wipe-IsWiped b, length-wipe b, map-wipe-Wiped bs)

pub map-wipe-IsWiped : (bs : List Bytes) → All IsWiped (map wipe bs)
map-wipe-IsWiped [] = tt
map-wipe-IsWiped (b ∷ bs) = (wipe-IsWiped b, map-wipe-IsWiped bs)
