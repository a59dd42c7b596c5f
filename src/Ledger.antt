-- ===== src/Ledger.antt =====
-- The append-only ledger (internal/repo/ledger.go).
use consulting_revenue_platf.Prelude.{ℕ, ◌∷◌}
use consulting_revenue_platf.Prelude.Int.{ℤ}
use consulting_revenue_platf.Prelude.Text.{Text}
use consulting_revenue_platf.Store.{
  LedgerEvent, LedgerEntity, LedgerEntry, Store, Tx, ◌>>=◌, lift, exec,
}
use consulting_revenue_platf.Money.Currency.{normalize_currency}

module _ (organization_id : ℕ) (event : LedgerEvent) (entity : LedgerEntity) (entity_id : ℕ)
    (amount_minor : ℤ) where
  abbrev pub ledger_row : Text → LedgerEntry
  ledger_row currency = record {
    organization_id = organization_id;
    event_type = event;
    entity_type = entity;
    entity_id = entity_id;
    amount_minor = amount_minor;
    currency = currency;
  }

  abbrev pub append_ledger : Text → Store → Store
  append_ledger currency s = record s { ledger = ledger_row currency ∷ s.ledger }

  -- `InsertLedgerEntryTx`. Its metadata, a map of texts and numbers, always encodes.
  unfoldable pub insert_ledger_entry_tx : Text → Tx (Unit {0})
  insert_ledger_entry_tx currency = do
    c ← lift (normalize_currency currency)
    exec (append_ledger c)
