-- ===== src/Telemetry/Middleware.antt =====
-- server/src/otel_middleware.rs: `ExtensionService`, which extracts the host of a request before the
-- inner service sees it, as a future that is polled.
use authust.Prelude.{String, Option, none, some}
use authust.Prelude.Res.{Res, ok, err, panic}

-- A future: it answers `Pending` a number of times, and then it is ready.
pub data Future (A : Type 0) : Type 0 where
  ready : A → Future A
  pending : Future A → Future A

-- `Future::poll`: `none` is `Poll::Pending`.
abbrev pub poll : {A : Type 0} → Future A → Option A × Future A
poll (ready a) = (some a, ready a)
poll (pending f) = (none, f)

abbrev pub map_future : {A B : Type 0} → (A → B) → Future A → Future B
map_future f (ready a) = ready (f a)
map_future f (pending a) = pending (map_future f a)

-- `State`, and `ResponseFuture`: `inner` is taken when the inner service is called.
pub data State (Request Response R E : Type 0) : Type 0 where
  extracting : Future (Res Response Request) → State Request Response R E
  future : Future (Res E R) → State Request Response R E

pub record ResponseFuture (Request Response R E : Type 0) : Type 0 where
  pub state : State Request Response R E
  pub inner : Option (Request → Future (Res E R))

-- What the service uses of axum: the extraction of `Host`, the answer to its failure, the extensions of
-- a request, and `IntoResponse`.
pub record Axum (Request Response R Rejection : Type 0) : Type 0 where
  pub host : Request → Future (Res Rejection String)
  pub rejection_response : Rejection → Response
  pub insert_host : String → Request → Request
  pub into_response : R → Response

module _ {Request Response R Rejection : Type 0} (axum : Axum Request Response R Rejection) where
  abbrev pub with_host : Request → Res Rejection String → Res Response Request
  with_host req (ok h) = ok (axum.insert_host h req)
  with_host req (err e) = err (axum.rejection_response e)
  with_host req panic = panic

  unfoldable pub extract_requests : Request → Future (Res Response Request)
  extract_requests req = map_future (with_host req) (axum.host req)

-- A poll: a panic, or `none` for `Pending`, or the answer; and the future after it.
abbrev pub Polled : (Request Response R E : Type 0) → Type 0
Polled Request Response R E = Res ⊥ (Option (Res E Response)) × ResponseFuture Request Response R E

module _ {Request Response R Rejection E : Type 0} (axum : Axum Request Response R Rejection) where
  -- `ExtensionService::call`.
  unfoldable pub call : (Request → Future (Res E R)) → Request → ResponseFuture Request Response R E
  unfolding extract_requests
  call inner req = record { state = extracting (extract_requests axum req); inner = some inner }

  abbrev pub answer_of : Res E R → Res ⊥ (Option (Res E Response))
  answer_of (ok r) = ok (some (ok (axum.into_response r)))
  answer_of (err e) = ok (some (err e))
  answer_of panic = panic

  -- The arm `StateProj::Future` returns.
  abbrev pub polled_future :
      Option (Request → Future (Res E R))
      → Option (Res E R) × Future (Res E R)
      → Polled Request Response R E
  polled_future inner (none, f) = (ok none, record { state = future f; inner = inner })
  polled_future inner (some r, f) = (answer_of r, record { state = future f; inner = inner })

  -- The inner service is taken and called, and the loop goes on with its future.
  abbrev pub call_inner :
      Option (Request → Future (Res E R))
      → Request
      → Future (Res Response Request)
      → Polled Request Response R E
  call_inner none req f = (panic, record { state = extracting f; inner = none })
  call_inner (some svc) req f = polled_future none (poll (svc req))

  abbrev pub extracted :
      Option (Request → Future (Res E R))
      → Option (Res Response Request) × Future (Res Response Request)
      → Polled Request Response R E
  extracted inner (none, f) = (ok none, record { state = extracting f; inner = inner })
  extracted inner (some (ok req), f) = call_inner inner req f
  extracted inner (some (err response), f) =
      (ok (some (ok response)), record { state = extracting f; inner = inner })
  extracted inner (some panic, f) = (panic, record { state = extracting f; inner = inner })

  abbrev pub poll_state :
      State Request Response R E → Option (Request → Future (Res E R)) → Polled Request Response R E
  poll_state (extracting f) inner = extracted inner (poll f)
  poll_state (future f) inner = polled_future inner (poll f)

  -- `ResponseFuture::poll`; its loop runs a second time only from `Extracting` to `Future`.
  unfoldable pub poll_response : ResponseFuture Request Response R E → Polled Request Response R E
  poll_response f = poll_state f.state f.inner
