-- ===== src/Auth/Reply.antt =====
-- The replies of handlers (internal/httpapi/response.go), and how a handler goes on after a repository
-- function.
use consulting_revenue_platf.Prelude.{ℕ}
use consulting_revenue_platf.Prelude.Text.{Text, codes}
use consulting_revenue_platf.Store.{Error, Result, ok, err}
use consulting_revenue_platf.Store.Pool.{Pool, Op}

-- `writeJSON` of a result, or `writeError` with its status and code.
pub data Reply (A : Type 0) : Type 0 where
  success : ℕ → A → Reply A
  refusal : ℕ → Text → Reply A

abbrev pub Handler : Type 0 → Type 0
Handler A = Pool → Reply A × Pool

module _ {B : Type 0} where
  unfoldable pub reply : Reply B → Handler B
  reply r p = (r, p)

  -- After a repository function: its error is answered, or the handler goes on.
  abbrev pub answered :
      {A : Type 0} → (Error → Reply B) → (A → Handler B) → Result A × Pool → Reply B × Pool
  answered onerr k (ok a, p) = k a p
  answered onerr k (err e, p) = (onerr e, p)

  unfoldable pub calling : {A : Type 0} → Op A → (Error → Reply B) → (A → Handler B) → Handler B
  calling m onerr k p = answered onerr k (m p)

  -- After a repository function whose error is not answered at once.
  abbrev pub recovered :
      {A : Type 0} → (Error → Handler B) → (A → Handler B) → Result A × Pool → Reply B × Pool
  recovered onerr k (ok a, p) = k a p
  recovered onerr k (err e, p) = onerr e p

  unfoldable pub recovering :
      {A : Type 0} → Op A → (Error → Handler B) → (A → Handler B) → Handler B
  recovering m onerr k p = recovered onerr k (m p)

  -- After an operation whose error is ignored.
  unfoldable pub ignoring : {A : Type 0} → Op A → Handler B → Handler B
  ignoring m k p = k (m p).1

  abbrev pub unavailable : Reply B
  unavailable = refusal 503 (codes "service_unavailable")

  abbrev pub invalid : Reply B
  invalid = refusal 400 (codes "validation_error")

  abbrev pub unauthorized : Reply B
  unauthorized = refusal 401 (codes "unauthorized")

  abbrev pub forbidden : Reply B
  forbidden = refusal 403 (codes "forbidden")

  abbrev pub internal : Reply B
  internal = refusal 500 (codes "internal_error")
