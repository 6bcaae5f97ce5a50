-- ===== src/Csrf/Poll.antt =====
-- server/src/api/csrf.rs: the future of the CSRF service. `Telemetry.Middleware` has futures.
use authust.Prelude.{Option, none, some}
use authust.Prelude.Res.{Res, ok, err, panic}
use authust.Telemetry.Middleware.{Future, poll}

-- `CsrfFuture`; the response of a refusal can be taken once. (`Check` has what a call gives.)
pub data CsrfFuture (Response R E : Type 0) : Type 0 where
  declined : Option Response → CsrfFuture Response R E
  future : Future (Res E R) → CsrfFuture Response R E

-- A panic, or `none` for `Pending`, or the answer; and the future after it.
abbrev pub Polled : (Response R E : Type 0) → Type 0
Polled Response R E = Res ⊥ (Option (Res E Response)) × CsrfFuture Response R E

module _ {Response R E : Type 0} (into_response : R → Response) where
  -- `map_ok(IntoResponse::into_response)` of a poll.
  abbrev pub mapped : Option (Res E R) → Res ⊥ (Option (Res E Response))
  mapped none = ok none
  mapped (some (ok r)) = ok (some (ok (into_response r)))
  mapped (some (err e)) = ok (some (err e))
  mapped (some panic) = panic

  abbrev pub polled : Option (Res E R) × Future (Res E R) → Polled Response R E
  polled (r, f) = (mapped r, future f)

  -- `CsrfFuture::poll`: a refusal that is polled again panics.
  unfoldable pub poll_csrf : CsrfFuture Response R E → Polled Response R E
  poll_csrf (declined (some response)) = (ok (some (ok response)), declined none)
  poll_csrf (declined none) = (panic, declined none)
  poll_csrf (future f) = polled (poll f)
