-- ===== src/Tests/Requests.antt =====
-- The requests of the service on the sample ledger (internal/service/operations.go).
use ledger_service.Prelude.{true, ◌↔◌, false, ◌≡◌, refl, List, [], ◌∷◌}
use ledger_service.Assoc.{insert, lookup}
use ledger_service.Prelude.Int.{pos}
use ledger_service.Cache.Invariant.{new_metadata_cache-IsValid}
use ledger_service.Health.{new_observed_ledger}
use ledger_service.Service.Reporting.{new_observed_ledger-IsIdle}
use ledger_service.Cache.{load, new_metadata_cache, store}
use ledger_service.Domain.{
  CreateAccountRequest, TopUpRequest, WithdrawalRequest, AuthorizationRequest,
  IncrementAuthorizationRequest, card_allocation, card_wallet, corporate_wallet, ok,
}
use ledger_service.Recipe.{account}
use ledger_service.Sdk.{Account, zero_transfer}
use ledger_service.Service.Accounts.Answers.{Never, balance-Sends, create_account-Sends}
use ledger_service.Service.Accounts.Replies.{IsBalance, IsCreation}
use ledger_service.Service.Accounts.{balance, create_account}
use ledger_service.Service.Authorization.Same.{same_transfer_iff}
use ledger_service.Service.Authorization.Submission.{authorize-Sends}
use ledger_service.Service.Authorization.Holds.{IsUnsent as IsUnsentHold, IsHold}
use ledger_service.Service.Authorization.{authorize, same_transfer}
use ledger_service.Service.Calls.{require_account_kind}
use ledger_service.Service.Ids.{validate_external_id, parse_public_id, is_uint128_max}
use ledger_service.Service.Increment.Increments.{IsIncrement, IsUnsent}
use ledger_service.Service.Increment.Submission.{increment_authorization-Sends}
use ledger_service.Service.Increment.{increment_authorization}
use ledger_service.Service.Metadata.{metadata_for_account}
use ledger_service.Service.Rules.Calls.{Admitted, Wp-require_account_kind}
use ledger_service.Service.Rules.Steps.{Failed, Sends}
use ledger_service.Service.Rules.{IsSound, Wp, Quiet, submissions}
use ledger_service.Service.Text.{trim_space}
use ledger_service.Service.Transactions.Submission.{
  IsTopUp, top_up-Sends, IsWithdrawal, withdraw-Sends, IsMove, move_card_funds-Sends,
}
use ledger_service.Service.Transactions.{top_up, withdraw, move_card_funds}
use ledger_service.Service.World.{Service, World, ◌>>=◌}
use ledger_service.Tests.Web.{host, creating_laws}
use ledger_service.Tests.Sample.{hold, laws, service, world, world-IsSound}

abbrev topup_request : TopUpRequest
topup_request = record { request_id = "c"; account_id = "a"; amount_cents = 900 }

abbrev withdrawal_request : WithdrawalRequest
withdrawal_request = record { request_id = "c"; account_id = "a"; amount_cents = 900 }

abbrev authorization_request : AuthorizationRequest
authorization_request = record {
  request_id = "c";
  card_id = "b";
  amount_cents = 900;
  merchant_id = "shop";
}

abbrev increment_request : IncrementAuthorizationRequest
increment_request = record { request_id = "c"; authorization_id = "4d"; increment_cents = 900 }

authorize-Sends_example :
    Sends service laws
      (IsUnsentHold service laws authorization_request)
      (IsHold service laws authorization_request)
      (authorize service authorization_request)
      world
authorize-Sends_example = authorize-Sends service laws authorization_request world world-IsSound

increment_authorization-Sends_example :
    Sends service laws
      (IsUnsent service laws increment_request)
      (IsIncrement service laws increment_request)
      (increment_authorization service increment_request)
      world
increment_authorization-Sends_example =
    increment_authorization-Sends service laws increment_request world world-IsSound

move_card_funds-Sends_example :
    Sends service laws Failed
      (IsMove service laws "c" "a" "b" 900 false)
      (move_card_funds service card_allocation "c" "a" "b" 900 false)
      world
move_card_funds-Sends_example =
    move_card_funds-Sends service laws card_allocation "c" "a" "b" 900 false world world-IsSound

top_up-Sends_example :
    Sends service laws Failed
      (IsTopUp service laws topup_request)
      (top_up service topup_request)
      world
top_up-Sends_example = top_up-Sends service laws topup_request world world-IsSound

withdraw-Sends_example :
    Sends service laws Failed
      (IsWithdrawal service laws withdrawal_request)
      (withdraw service withdrawal_request)
      world
withdraw-Sends_example = withdraw-Sends service laws withdrawal_request world world-IsSound

Wp-require_account_kind_example :
    Wp service laws
      (require_account_kind service 11 card_wallet)
      world
      (Quiet world (Admitted service laws 11 card_wallet))
Wp-require_account_kind_example =
    Wp-require_account_kind service laws world world-IsSound 11 card_wallet

top_up_sends :
    submissions (top_up service topup_request world).1.events
    ≡ record zero_transfer {
      id = 12;
      debit_account_id = 1;
      credit_account_id = 10;
      amount = 900;
      ledger = 7;
      code = 1001;
    }
      ∷ []
unfolding top_up ◌>>=◌ validate_external_id trim_space parse_public_id is_uint128_max load
    new_metadata_cache lookup metadata_for_account account store insert
top_up_sends = refl

balance-Sends_example :
    Sends service laws (IsBalance service laws "a") Never (balance service "a") world
balance-Sends_example = balance-Sends service laws "a" world world-IsSound

abbrev creation_request : CreateAccountRequest
creation_request = record { account_id = "c"; kind = corporate_wallet; corporate_account_id = "" }

-- the service on a ledger that takes every account
abbrev creating_service : Service (List Account)
creating_service = record {
  sdk = host.sdk;
  env = host.env;
  ledger_id = 7;
  authorization_timeout = pos 0;
  risk_delay = pos 0;
  risk_limit_cents = 10_000;
  has_metrics = true;
}

abbrev creating_world : World (List Account)
creating_world = record {
  env = [];
  cache = new_metadata_cache (pos 2);
  observed = new_observed_ledger (pos 0);
  events = [];
}

creating_world-IsSound : IsSound creating_service creating_laws creating_world
unfolding new_metadata_cache new_observed_ledger load lookup
creating_world-IsSound = record {
  cache_valid = new_metadata_cache-IsValid (pos 2);
  backed = λ id m h. cc;
  reported = record { metered = λ kind. refl; idle = new_observed_ledger-IsIdle (pos 0) };
}

create_account-Sends_example :
    Sends creating_service creating_laws
      (IsCreation creating_service creating_laws creation_request)
      Never
      (create_account creating_service creation_request)
      creating_world
create_account-Sends_example =
    create_account-Sends creating_service creating_laws creation_request creating_world
      creating_world-IsSound

create_account_creates :
    (create_account creating_service creation_request creating_world).0
    ≡ ok (
      record {
        account_id = host.sdk.uint128_string 12;
        kind = corporate_wallet;
        corporate_account_id = "";
        status = "created";
        timestamp = 1;
      },
      201,
    )
unfolding create_account ◌>>=◌ validate_external_id trim_space parse_public_id is_uint128_max load
    new_metadata_cache new_observed_ledger lookup metadata_for_account account store insert
create_account_creates = refl

same_transfer_iff_example :
    (same_transfer hold hold ≡ true) ↔ (record hold { timestamp = hold.timestamp } ≡ hold)
same_transfer_iff_example = same_transfer_iff hold hold
