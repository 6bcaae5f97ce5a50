-- ===== src/Telemetry/Driven.antt =====
-- server/src/otel_middleware.rs: a future of the service that is polled to its end gives what the
-- inner service answers to the request with its host.
use authust.Prelude.{ℕ, zero, suc, ◌+◌, Option, none, some, ◌≡◌, refl, ap, arith}
use authust.Prelude.Res.{Res, ok, err, panic}
use authust.Telemetry.Middleware.{
  Future, ready, pending, map_future, extracting, future, ResponseFuture, Axum, with_host,
  extract_requests, call, Polled, answer_of, poll_response,
}

-- What a future gives in the end, and how often it is pending before.
abbrev pub await : {A : Type 0} → Future A → A
await (ready a) = a
await (pending f) = await f

abbrev pub pendings : {A : Type 0} → Future A → ℕ
pendings (ready a) = 0
pendings (pending f) = suc (pendings f)

await-map_future : {A B : Type 0} (f : A → B) (a : Future A) → await (map_future f a) ≡ f (await a)
await-map_future f (ready a) = refl
await-map_future f (pending a) = await-map_future f a

pendings-map_future :
    {A B : Type 0} (f : A → B) (a : Future A) → pendings (map_future f a) ≡ pendings a
pendings-map_future f (ready a) = refl
pendings-map_future f (pending a) = ap suc (pendings-map_future f a)

module _ {Request Response R Rejection E : Type 0} (axum : Axum Request Response R Rejection) where
  abbrev pub again :
      (ResponseFuture Request Response R E → Res ⊥ (Option (Res E Response)))
      → Polled Request Response R E
      → Res ⊥ (Option (Res E Response))
  again rest (ok none, f) = rest f
  again rest (ok (some r), f) = ok (some r)
  again rest (err x, f) = err x
  again rest (panic, f) = panic

  -- Polling until an answer comes, at most so often.
  unfoldable pub drive : ℕ → ResponseFuture Request Response R E → Res ⊥ (Option (Res E Response))
  drive zero f = ok none
  drive (suc n) f = again (drive n) (poll_response axum f)

  -- The service without futures.
  abbrev pub served :
      (Request → Future (Res E R)) → Res Response Request → Res ⊥ (Option (Res E Response))
  served inner (ok req) = answer_of axum (await (inner req))
  served inner (err response) = ok (some (ok response))
  served inner panic = panic

  -- How often the inner service is pending, if it is called.
  abbrev pub inner_pendings : (Request → Future (Res E R)) → Res Response Request → ℕ
  inner_pendings inner (ok req) = pendings (inner req)
  inner_pendings inner _ = 0

  drive_future :
      (f : Future (Res E R))
      → drive (suc (pendings f)) (record { state = future f; inner = none })
        ≡ answer_of axum (await f)
  unfolding drive poll_response
  drive_future (ready (ok r)) = refl
  drive_future (ready (err e)) = refl
  drive_future (ready panic) = refl
  drive_future (pending f) = drive_future f

  -- The poll in which the extraction becomes ready polls the inner future too.
  drive_called :
      (inner : Request → Future (Res E R)) (req : Request) (n : ℕ) (f : Future (Res E R))
      → inner req ≡ f
      → n ≡ pendings f
      → drive (suc n) (record { state = extracting (ready (ok req)); inner = some inner })
        ≡ answer_of axum (await f)
  unfolding drive poll_response
  drive_called inner req n (ready (ok r)) is count = rw is refl
  drive_called inner req n (ready (err e)) is count = rw is refl
  drive_called inner req n (ready panic) is count = rw is refl
  drive_called inner req n (pending f) is count = rw (is, count) (drive_future f)

  drive_extracting :
      (inner : Request → Future (Res E R)) (f : Future (Res Response Request))
      → drive
          (suc (pendings f + inner_pendings inner (await f)))
          (record { state = extracting f; inner = some inner })
        ≡ served inner (await f)
  unfolding drive poll_response
  drive_extracting inner (ready (ok req)) = drive_called inner req _ (inner req) refl (omega arith)
  drive_extracting inner (ready (err response)) = refl
  drive_extracting inner (ready panic) = refl
  drive_extracting inner (pending f) =
      let count : suc (pendings f) + inner_pendings inner (await f)
          ≡ suc (pendings f + inner_pendings inner (await f)) =
        omega arith in
      rw count (drive_extracting inner f)

  -- What the service answers: the rejection of a request without a host, and else what the inner
  -- service answers to the request with its host.
  abbrev pub answers : (Request → Future (Res E R)) → Request → Res ⊥ (Option (Res E Response))
  answers inner req = served inner (with_host axum req (await (axum.host req)))

  -- A future of the service gives that answer when it is polled once more often than the extraction
  -- of the host and the inner service, if it is called, are pending: the inner service is there when
  -- it is called, and it is called once.
  pub drive-call :
      (inner : Request → Future (Res E R)) (req : Request)
      → drive
          (suc (
            pendings (axum.host req)
            + inner_pendings inner (with_host axum req (await (axum.host req)))))
          (call axum inner req)
        ≡ answers inner req
  unfolding call extract_requests
  drive-call inner req =
      let extract = map_future (with_host axum req) (axum.host req) in
      let last : await extract ≡ with_host axum req (await (axum.host req)) =
        await-map_future (with_host axum req) (axum.host req) in
      let often : pendings extract ≡ pendings (axum.host req) =
        pendings-map_future (with_host axum req) (axum.host req) in
      let run = drive_extracting inner extract in rw (last, often) at run
