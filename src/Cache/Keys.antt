-- ===== src/Cache/Keys.antt =====
-- Lists of distinct keys: membership, appending, and overwriting one place.
use ledger_service.Prelude.{
  ℕ, zero, suc, ◌≡◌, refl, Bool, true, false, not, ◌&&◌, ◌||◌, some, List, [], ◌∷◌, ◌++◌, arith,
  ◌==◌, get_elem?, set,
}

abbrev pub contains : ℕ → List ℕ → Bool
contains k [] = false
contains k (j ∷ ks) = k == j || contains k ks

abbrev pub IsDistinct : List ℕ → Type 0
IsDistinct [] = Unit
IsDistinct (k ∷ ks) = (contains k ks ≡ false) × IsDistinct ks

pub contains-append_one :
    (j k : ℕ) (ks : List ℕ) → contains j (ks ++ k ∷ []) ≡ (j == k || contains j ks)
contains-append_one j k [] = refl
contains-append_one j k (i ∷ ks) = ground (arith, contains-append_one j k ks)

pub append_one-IsDistinct :
    (k : ℕ) (ks : List ℕ) → contains k ks ≡ false → IsDistinct ks → IsDistinct (ks ++ k ∷ [])
append_one-IsDistinct k [] h d = (refl, tt)
append_one-IsDistinct k (i ∷ ks) h d =
    ground (arith, append_one-IsDistinct k ks, contains-append_one i k ks)

-- a key that is read at a place is in the list
pub contains-get_elem? :
    (ks : List ℕ) (n : ℕ) {x : ℕ} → get_elem? ks n ≡ some x → contains x ks ≡ true
contains-get_elem? [] n h = cc
contains-get_elem? (i ∷ ks) zero h = ground arith
contains-get_elem? (i ∷ ks) (suc n) h = ground (arith, contains-get_elem? ks n h)

-- overwriting `x` by a key `k` removes `x` and adds `k`
pub contains-set :
    (j k x : ℕ) (ks : List ℕ) (n : ℕ)
    → IsDistinct ks
    → get_elem? ks n ≡ some x
    → contains j (set ks n k) ≡ (j == k || (contains j ks && not (j == x)))
contains-set j k x [] n d h = cc
contains-set j k x (i ∷ ks) zero d h = ground arith
contains-set j k x (i ∷ ks) (suc n) d h =
    ground (arith, contains-set j k x ks n, contains-get_elem? ks n h)

pub set-IsDistinct :
    (k x : ℕ) (ks : List ℕ) (n : ℕ)
    → IsDistinct ks
    → get_elem? ks n ≡ some x
    → contains k ks ≡ false
    → IsDistinct (set ks n k)
set-IsDistinct k x [] n d h f = cc
set-IsDistinct k x (i ∷ ks) zero d h f = ground arith
set-IsDistinct k x (i ∷ ks) (suc n) d h f =
    ground (arith, set-IsDistinct k x ks n, contains-set i k x ks n)
