-- ===== src/Domain/Kinds.antt =====
-- internal/domain/model.go: the kinds of accounts and of operations.
use ledger_service.Prelude.{String, Bool, true, false, str_eq}

-- `type AccountKind string`: the four constants, and every other text.
pub data AccountKind : Type 0 where
  safeguarded_cash corporate_wallet card_wallet card_settlement_payable : AccountKind
  unsupported : String → AccountKind

-- `AccountKind.Valid`
abbrev pub valid : AccountKind → Bool
valid safeguarded_cash = true
valid corporate_wallet = true
valid card_wallet = true
valid card_settlement_payable = true
valid (unsupported _) = false

-- `==` on kinds
abbrev pub kind_eq : AccountKind → AccountKind → Bool
kind_eq safeguarded_cash safeguarded_cash = true
kind_eq corporate_wallet corporate_wallet = true
kind_eq card_wallet card_wallet = true
kind_eq card_settlement_payable card_settlement_payable = true
kind_eq (unsupported s) (unsupported t) = str_eq s t
kind_eq _ _ = false

pub data OperationKind : Type 0 where
  topup withdrawal card_allocation card_return authorization authorization_increment : OperationKind

-- the text of an operation's kind
abbrev pub operation_text : OperationKind → String
operation_text topup = "topup"
operation_text withdrawal = "withdrawal"
operation_text card_allocation = "card_allocation"
operation_text card_return = "card_return"
operation_text authorization = "authorization"
operation_text authorization_increment = "authorization_increment"
