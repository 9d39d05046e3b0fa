-- ===== src/Audit.antt =====
-- src/services/audit_logger.py and src/services/token_ledger.py: the two append-only tables.
use post_call_processing_pip.Prelude.{
  ℕ, String, [], ◌∷◌, ◌++◌, Option, none, some, str_eq, if◌then◌else◌,
}
use post_call_processing_pip.Prelude.Integers.{ℤ, is_negative}
use post_call_processing_pip.Json.{Fields}
use post_call_processing_pip.Models.{InteractionAuditLog, AuditStatus, LlmTokenLedger, TaskStep}
use post_call_processing_pip.Context.{Context, or_text}
use post_call_processing_pip.Db.{Db, Result, ok, err, value_error}

abbrev pub audit_row :
    Context → ℕ → ℕ → Option String → TaskStep → AuditStatus → ℕ → Fields → InteractionAuditLog
audit_row c interaction_id customer_id correlation_id step status attempt detail = record {
  interaction_id = interaction_id;
  customer_id = customer_id;
  correlation_id = or_text correlation_id (or_text c.correlation_id "unknown");
  step = step;
  status = status;
  attempt = attempt;
  detail = detail;
}

unfoldable pub record_event :
    Context → ℕ → ℕ → Option String → TaskStep → AuditStatus → ℕ → Fields → Db → Db
record_event c interaction_id customer_id correlation_id step status attempt detail db = record db {
  audit =
      db.audit
      ++ audit_row c interaction_id customer_id correlation_id step status attempt detail ∷ [];
}

-- correlation_id or get_correlation_id()
abbrev pub or_bound : Option String → Option String → Option String
or_bound none bound = bound
or_bound (some s) bound = if str_eq s "" then bound else some s

unfoldable pub record_consumption :
    Context → ℕ → ℕ → ℤ → ℕ → String → Option String → Db → Result Db
record_consumption c customer_id interaction_id tokens_used campaign_id model correlation_id db =
    if is_negative tokens_used
    then err value_error
    else ok (record db { ledger = db.ledger ++ row ∷ [] })
  where
    row : LlmTokenLedger
    row = record {
      customer_id = customer_id;
      campaign_id = campaign_id;
      interaction_id = interaction_id;
      request_kind = "post_call_analysis";
      tokens_used = tokens_used;
      model = model;
      correlation_id = or_bound correlation_id c.correlation_id;
    }
