-- ===== src/TimeEntry/Bounded.antt =====
-- What the table of entries satisfies after any creations and patches: distinct ids, minutes of one day
-- and rates that are not negative.
use consulting_revenue_platf.Prelude.{
  ℕ, ◌≤◌, ◌<◌, ◌≡◌, ◌≢◌, refl, inl, inr, Bool, false, Option, none, some, List, [], ◌∷◌, All,
  All-find, All-update_where, Bool-cases, update_where, arith,
}
use consulting_revenue_platf.Prelude.Int.{ℤ, pos, negsuc, ltb_ℤ}
use consulting_revenue_platf.Prelude.Text.{Text}
use consulting_revenue_platf.Store.{TimeEntry, Store}
use consulting_revenue_platf.Store.Pool.{Pool}
use consulting_revenue_platf.Store.Rely.{
  Relied, Keeps, Sound-constrained, Keeps-pure, Keeps-statement, Keeps-or_throw, Keeps-throw_if,
  Keeps-bind, Keeps-query, Keeps-weaken,
}
use consulting_revenue_platf.TimeEntry.Transition.{is_entry}
use consulting_revenue_platf.TimeEntry.Sorted.{HasKeys}
use consulting_revenue_platf.TimeEntry.Edit.{
  Patch, Columns, set_columns, patched, is_editable, update_columns, validate_given,
  validate_project, update_time_entry, create_time_entry, out_of_range, given_bad, or_else,
  id_taken,
}

pub record IsBounded (minutes rate : ℤ) : Type 0 where
  pub m : ℕ
  pub r : ℕ
  pub minutes_eq : minutes ≡ pos m
  pub rate_eq : rate ≡ pos r
  pub not_none : 0 < m
  pub in_day : m ≤ 1440

abbrev pub HasBounds : TimeEntry → Type 0
HasBounds e = IsBounded e.minutes e.hourly_rate_minor

pub record IsKept (s : Store) : Type 0 where
  pub bounded : All HasBounds s.time_entries
  pub keys : HasKeys s.time_entries

checked :
    (minutes rate : ℤ)
    → out_of_range minutes ≡ false
    → ltb_ℤ rate (pos 0) ≡ false
    → IsBounded minutes rate
checked (pos m) (pos r) h k = record {
  m = m;
  r = r;
  minutes_eq = refl;
  rate_eq = refl;
  not_none = ground arith;
  in_day = ground arith;
}
checked (pos m) (negsuc r) h k = absurd (ground arith)
checked (negsuc m) r h k = absurd (ground arith)

-- The values that a patch writes: checked, or read.
patched-IsBounded :
    (minutes rate : Option ℤ) (m r : ℤ)
    → given_bad out_of_range minutes ≡ false
    → given_bad (λ z. ltb_ℤ z (pos 0)) rate ≡ false
    → IsBounded m r
    → IsBounded (or_else minutes m) (or_else rate r)
patched-IsBounded none none m r h k b = b
patched-IsBounded (some z) none m r h k b =
    let c = checked z (pos b.r) h (ground arith) in
    record {
      m = c.m;
      r = b.r;
      minutes_eq = c.minutes_eq;
      rate_eq = b.rate_eq;
      not_none = c.not_none;
      in_day = c.in_day;
    }
patched-IsBounded none (some w) m r h k b =
    let c = checked (pos 1) w (ground arith) k in
    record {
      m = b.m;
      r = c.r;
      minutes_eq = b.minutes_eq;
      rate_eq = c.rate_eq;
      not_none = b.not_none;
      in_day = b.in_day;
    }
patched-IsBounded (some z) (some w) m r h k b = checked z w h k

not_taken : (id : ℕ) (es : List TimeEntry) → id_taken id es ≡ false → All (λ x. id ≢ x.id) es
not_taken id [] h = tt
not_taken id (e ∷ es) h = (λ q. ground arith, not_taken id es (ground arith))

-- An update that leaves the ids leaves them distinct.
module _ (p : TimeEntry → Bool) (c : Columns) (now : ℕ) where
  other_ids :
      (id : ℕ) (es : List TimeEntry)
      → All (λ x. id ≢ x.id) es
      → All (λ x. id ≢ x.id) (update_where p (set_columns c now) es)
  other_ids id es h =
      All-update_where (λ x. id ≢ x.id) (λ x. id ≢ x.id) p (set_columns c now) es (λ a t k. k)
        (λ a t k. k) h

  update-HasKeys :
      (es : List TimeEntry) → HasKeys es → HasKeys (update_where p (set_columns c now) es)
  update-HasKeys [] h = tt
  update-HasKeys (e ∷ es) h = elim (Bool-cases (p e)) [
    | inl t ↦ rw t (other_ids e.id es h.0, update-HasKeys es h.1)
    | inr t ↦ rw t (other_ids e.id es h.0, update-HasKeys es h.1)
  ]

module _ (org : ℕ) where
  validate_project-Keeps : (i : ℕ) → Keeps IsKept (validate_project org i) (λ u. Unit)
  unfolding validate_project
  validate_project-Keeps i =
      Keeps-query IsKept (λ row. Unit) _ _ (λ s k. tt)
        λ row q.
          Keeps-bind IsKept (λ p. Unit) _ _ (Keeps-or_throw IsKept row _ (λ p e. tt))
            λ p q. Keeps-weaken IsKept _ (λ u h. tt) (Keeps-throw_if IsKept _ _)

  validate_given-Keeps : (o : Option ℕ) → Keeps IsKept (validate_given org o) (λ u. Unit)
  validate_given-Keeps none = Keeps-pure IsKept tt tt
  validate_given-Keeps (some i) = validate_project-Keeps i

  create_time_entry-IsKept :
      (id project user day : ℕ) (minutes rate : ℤ) (notes : Option Text) (now : ℕ)
      → Keeps IsKept
          (create_time_entry id org project user day minutes rate notes now)
          (λ i. i ≡ id)
  unfolding create_time_entry
  create_time_entry-IsKept id project user day minutes rate notes now =
      Keeps-bind IsKept (λ u. Unit) _ _ (validate_project-Keeps project)
        λ u q. Keeps-bind IsKept _ _ _ (Keeps-throw_if IsKept (out_of_range minutes) _) λ u h.
          Keeps-bind IsKept _ _ _ (Keeps-throw_if IsKept (ltb_ℤ rate (pos 0)) _) λ u k.
            Keeps-statement IsKept _ λ s i.
              Sound-constrained IsKept _ _ _ _
                (λ t. record {
                  bounded = (checked minutes rate h k, i.bounded);
                  keys = (not_taken id s.time_entries (ground arith), i.keys);
                })
                refl

  update_time_entry-IsKept :
      (id : ℕ) (f : Patch) (now : ℕ) → Keeps IsKept (update_time_entry org id f now) (λ u. Unit)
  unfolding update_time_entry
  update_time_entry-IsKept id f now =
      Keeps-query IsKept (λ row. (e : TimeEntry) → row ≡ some e → HasBounds e) _ _
        (λ s k e. All-find HasBounds (is_entry org id) s.time_entries e k.bounded)
        λ row q. Keeps-bind IsKept HasBounds _ _ (Keeps-or_throw IsKept row _ q) λ e b.
          Keeps-bind IsKept _ _ _ (Keeps-throw_if IsKept _ _) λ u h.
            Keeps-bind IsKept _ _ _ (validate_given-Keeps f.project_id) λ u h.
              Keeps-bind IsKept _ _ _ (Keeps-throw_if IsKept (given_bad out_of_range f.minutes) _)
                λ u h.
                  Keeps-bind IsKept _ _ _
                    (Keeps-throw_if IsKept (given_bad (λ r. ltb_ℤ r (pos 0)) f.hourly_rate_minor) _)
                    λ u k.
                      Keeps-bind IsKept (λ n. Unit) _ _
                        (Keeps-statement IsKept (update_columns org id (patched e f) now) λ s i.
                          Sound-constrained IsKept _ _ _ _
                            (λ t. record {
                              bounded =
                                  All-update_where HasBounds HasBounds (is_editable org id)
                                    (set_columns (patched e f) now) s.time_entries
                                    (λ a t w.
                                      patched-IsBounded f.minutes f.hourly_rate_minor _ _ h k b)
                                    (λ a t w. w) i.bounded;
                              keys = update-HasKeys _ (patched e f) now s.time_entries i.keys;
                            })
                            tt)
                        λ n q. Keeps-weaken IsKept _ (λ u h. tt) (Keeps-throw_if IsKept _ _)

-- A request to create or to patch an entry.
pub data EditRequest : Type 0 where
  creating : ℕ → ℕ → ℕ → ℕ → ℕ → ℤ → ℤ → Option Text → ℕ → EditRequest
  patching : ℕ → ℕ → Patch → ℕ → EditRequest

unfoldable pub edit : EditRequest → Pool → Pool
edit (creating id org project user day minutes rate notes now) p =
    (create_time_entry id org project user day minutes rate notes now p).1
edit (patching org id f now) p = (update_time_entry org id f now p).1

unfoldable pub edit_all : List EditRequest → Pool → Pool
edit_all [] p = p
edit_all (r ∷ rs) p = edit_all rs (edit r p)

edit-IsKept :
    (r : EditRequest) (p : Pool)
    → Relied IsKept p.others
    → IsKept p.store
    → IsKept (edit r p).store × Relied IsKept (edit r p).others
unfolding edit
edit-IsKept (creating id org project user day minutes rate notes now) p o i =
    let k = (create_time_entry-IsKept org id project user day minutes rate notes now).apply p o i in
    (k.0, k.1)
edit-IsKept (patching org id f now) p o i =
    let k = (update_time_entry-IsKept org id f now).apply p o i in (k.0, k.1)

-- The table of entries after any requests to create and to patch entries, served one statement at a
-- time with any of the driver's calls failed and anything committed in between that keeps the
-- invariant: ids are distinct, minutes are from 1 to 1440, and no rate is negative, also where a
-- patch writes back what it had read before another change.
pub edit_all-IsKept :
    (rs : List EditRequest) (p : Pool)
    → Relied IsKept p.others
    → IsKept p.store
    → IsKept (edit_all rs p).store
unfolding edit_all
edit_all-IsKept [] p o i = i
edit_all-IsKept (r ∷ rs) p o i =
    let k = edit-IsKept r p o i in edit_all-IsKept rs (edit r p) k.1 k.0
