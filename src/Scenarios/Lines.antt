-- ===== src/Scenarios/Lines.antt =====
-- Runs on the line items of a draft.
use consulting_revenue_platf.Prelude.{◌≡◌, refl, none, some, List, [], ◌∷◌}
use consulting_revenue_platf.Prelude.Int.{pos}
use consulting_revenue_platf.Prelude.Text.{codes, trim_space}
use consulting_revenue_platf.Store.{LineItem, Db, tx_steps}
use consulting_revenue_platf.Int64.{add64, mul64}
use consulting_revenue_platf.Money.Decimal.{parse_nat}
use consulting_revenue_platf.Invoice.Amounts.{compute_line_total}
use consulting_revenue_platf.Invoice.Header.{get_invoice_for_update}
use consulting_revenue_platf.Invoice.Lines.{
  split_dot, parse_quantity, LineItemUpsert, line_values, remove_lines, upsert_lines,
  recompute_totals, patch_lines_tx, patch_invoice_line_items,
}
use consulting_revenue_platf.Scenarios.Billing.{billing_store}

abbrev line : LineItem
line = record {
  id = 50;
  invoice_id = 21;
  organization_id = 1;
  source_time_entry_id = none;
  description = codes "Old";
  quantity_hundredths = 100;
  unit_amount_minor = pos 9000;
  line_total_minor = pos 9000;
}

abbrev lines_db : Db
lines_db = record {
  store = record billing_store {
    line_items = line ∷ record line { id = 51 } ∷ record line { id = 52; invoice_id = 20 } ∷ [];
  };
  faults = [];
}

-- One line is removed, one is changed and one is added.
abbrev upserts : List LineItemUpsert
upserts =
    record {
      id = some 51;
      new_id = 0;
      description = codes " Design ";
      quantity = codes "1.5";
      unit_amount_minor = pos 333;
    }
    ∷ record {
      id = none;
      new_id = 53;
      description = codes "Review";
      quantity = codes "2";
      unit_amount_minor = pos 1000;
    }
    ∷ []

patches_lines :
    (patch_invoice_line_items 1 21 upserts (50 ∷ []) 9 lines_db).1.store.line_items
    ≡ record line {
      id = 53;
      description = codes "Review";
      quantity_hundredths = 200;
      unit_amount_minor = pos 1000;
      line_total_minor = pos 2000;
    }
      ∷ record line {
        id = 51;
        description = codes "Design";
        quantity_hundredths = 150;
        unit_amount_minor = pos 333;
        line_total_minor = pos 500;
      }
      ∷ record line { id = 52; invoice_id = 20 }
      ∷ []
unfolding patch_invoice_line_items patch_lines_tx remove_lines upsert_lines recompute_totals
    line_values parse_quantity split_dot parse_nat trim_space add64 mul64 compute_line_total
    get_invoice_for_update tx_steps
patches_lines = refl
