-- ===== src/Domain/Laws.antt =====
-- Equality of account kinds.
use ledger_service.Prelude.{◌≡◌, true, eq_iff, arith}
use ledger_service.Domain.{AccountKind, unsupported, kind_eq}

pub eq_of_kind_eq : (a b : AccountKind) → kind_eq a b ≡ true → a ≡ b
eq_of_kind_eq (unsupported x) (unsupported y) h = ground (arith, eq_iff x y)
eq_of_kind_eq a b h = ground arith
