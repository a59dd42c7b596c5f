-- ===== src/CsvSafe.antt =====
-- `SafeCell` of internal/csvsafe/csvsafe.go: cells that spreadsheet tools do not read as formulas.
use consulting_revenue_platf.Prelude.{
  ℕ, ◌≡◌, refl, inl, inr, Bool, false, ◌||◌, [], ◌∷◌, ◌==◌, if◌then◌else◌, Bool-cases, arith,
}
use consulting_revenue_platf.Prelude.Text.{Text}

abbrev tab : ℕ
tab = 0x9

abbrev quote : ℕ
quote = 0x27

-- The `switch` on the first character.
abbrev is_formula_start : ℕ → Bool
is_formula_start c = c == b'=' || c == b'+' || c == b'-' || c == b'@'

-- `SafeCell`.
unfoldable pub safe_cell : Text → Text
safe_cell [] = []
safe_cell (c ∷ s) =
    if c == tab then quote ∷ c ∷ s else if is_formula_start c then quote ∷ c ∷ s else c ∷ s

-- The characters that a spreadsheet reads as the start of a formula, and the tab that hides one: the
-- tab, the plus, the minus, the equals sign and the at sign, as code points.
abbrev is_risky_character : ℕ → Bool
is_risky_character c = c == 9 || c == 43 || c == 45 || c == 61 || c == 64

abbrev pub is_risky : Text → Bool
is_risky [] = false
is_risky (c ∷ s) = is_risky_character c

-- A cell that was made safe does not start with a tab, a plus, a minus, an equals sign or an at sign;
-- a text that starts with one of these is put behind a single quote, and any other is left as it is;
-- and making a cell safe again changes nothing.
pub safe_cell_safe :
    (s : Text)
    → (is_risky (safe_cell s) ≡ false)
      × (safe_cell s ≡ (if is_risky s then 39 ∷ s else s))
      × (safe_cell (safe_cell s) ≡ safe_cell s)
unfolding safe_cell
safe_cell_safe [] = (refl, refl, refl)
safe_cell_safe (c ∷ s) = elim (Bool-cases (is_risky_character c)) [
  | inl t ↦ (ground arith, ground arith, ground arith)
  | inr t ↦ (ground arith, ground arith, ground arith)
]
