-- ===== src/Contract/Usage.antt =====
-- The usage records of internal/contract/types.go.
use traffic_forwarding_panel.Prelude.{ℕ, ◌&&◌, Bool, false, ltb, ◌==◌}

-- The strings of the field `Kind`.
pub data Kind : Type 0 where
  unset normal recovery other : Kind

-- `contract.UsageRecord`. An identifier is a number, 0 the empty one; the zero instant is 0.
pub record UsageRecord : Type 0 where
  pub id : ℕ
  pub node : ℕ
  pub rule : ℕ
  pub lease : ℕ
  pub ent : ℕ
  pub started : ℕ
  pub ended : ℕ
  pub upload : ℕ
  pub download : ℕ
  pub kind : Kind
  pub window : ℕ
  pub sequence : ℕ

-- What the code asks of the texts behind the identifiers: `len`, `Sprintf("%s:%d")` and the JSON text
-- of a record.
pub record Texts : Type 0 where
  pub len : ℕ → ℕ
  pub window_usage_id : ℕ → ℕ → ℕ
  pub marshal : UsageRecord → ℕ

-- `ValidWindowMetadata`
unfoldable pub valid_window_metadata : Texts → UsageRecord → Bool
valid_window_metadata t u = elim u.kind [
  | unset ↦ u.window == 0 && u.sequence == 0
  | other ↦ false
  | _ ↦ t.len u.window == 32 && ltb 0 u.sequence && u.id == t.window_usage_id u.window u.sequence
]
