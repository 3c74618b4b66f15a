-- ===== src/Delivery/Opening.antt =====
-- `ensure_schema` of current/delivery_schema.py, which `DeliveryStore` runs when it is opened. That
-- the stored statements are those of the schema is left out.
use watershed_memory.Base.{
  Option, none, some, Result, ok, err, value_error, ◌>>◌, raise_if, not, ◌&&◌, ◌==◌, [],
}
use watershed_memory.Cases.Records.{CaseDb}
use watershed_memory.Delivery.Types.{InvocationAllowance, check_allowance}
use watershed_memory.Delivery.Records.{Journal}

-- The tables that the first opening creates.
abbrev pub new_journal : InvocationAllowance → CaseDb → Journal
new_journal allowance db = record {
  work = db;
  allowance = record {
    scripted_limit = allowance.scripted_attempts;
    scripted_used = 0;
    provider_limit = allowance.provider_attempts;
    provider_used = 0;
  };
  attempts = [];
}

-- `ensure_schema` when the database has no table of the journal.
unfoldable pub create_journal : Option InvocationAllowance → CaseDb → Result Journal
create_journal none db = err value_error
create_journal (some allowance) db = check_allowance allowance >> ok (new_journal allowance db)

-- `ensure_schema` when it has them.
unfoldable pub verify_journal : Option InvocationAllowance → Journal → Result Journal
verify_journal none j = ok j
verify_journal (some allowance) j =
    check_allowance allowance
    >> raise_if
        (not (
          j.allowance.scripted_limit == allowance.scripted_attempts
          && j.allowance.provider_limit == allowance.provider_attempts))
        value_error
    >> ok j
