-- ===== src/Service/Ids/Max.antt =====
-- `isUint128Max` against the number that the bytes stand for.
use ledger_service.Prelude.{
  ℕ, zero, suc, ◌+◌, ◌*◌, ◌/◌, ◌%◌, ◌^◌, ◌-◌, ◌≤◌, ◌<◌, ◌≡◌, ◌↔◌, refl, true, List, [], ◌∷◌, arith,
}
use ledger_service.Sdk.{Sdk}
use ledger_service.Service.Ids.{all_ff, is_uint128_max}

-- the `k` lowest bytes of a number, the lowest first
abbrev pub little_endian : ℕ → ℕ → List ℕ
little_endian zero n = []
little_endian (suc k) n = n % 256 ∷ little_endian k (n / 256)

-- the number whose `k` bytes are all 0xff
abbrev ones : ℕ → ℕ
ones zero = 0
ones (suc k) = 255 + 256 * ones k

all_ff_iff : (k n : ℕ) → n ≤ ones k → (all_ff (little_endian k n) ≡ true) ↔ (n ≡ ones k)
unfolding all_ff
all_ff_iff zero n h = (λ _. omega arith, λ _. refl)
all_ff_iff (suc k) n h =
    let (to, from) = all_ff_iff k (n / 256) (omega arith) in
    (λ e. ground (arith, to), λ e. ground (arith, from))

-- Given that `Bytes` lists the 16 bytes of a 128-bit ID, lowest first, `isUint128Max` holds of it
-- exactly when it is the greatest 128-bit number.
pub is_uint128_max_iff :
    (sdk : Sdk) (id : ℕ)
    → id < 2 ^ 128
    → sdk.uint128_bytes id ≡ little_endian 16 id
    → (is_uint128_max sdk id ≡ true) ↔ (id ≡ 2 ^ 128 - 1)
unfolding is_uint128_max
is_uint128_max_iff sdk id h e = rw e (all_ff_iff 16 id (omega arith))
