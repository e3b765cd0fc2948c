-- ===== src/Send/Backend/Ends.antt =====
-- The streams that run after `handleError` of useTauriEvents.ts.
use musaed.Base.{
  ℕ, String, Option, none, some, List, [], ◌∷◌, ◌≡◌, ◌≢◌, refl, ◌∙◌, arith, Option-cases, inl, inr,
  text_discrete, ite,
}
use musaed.Base.Dict.{Dict, get, keys, IsDict}
use musaed.Coordination.{App, error, stop_stream, is_stale}
use musaed.Coordination.Streams.{running}
use musaed.Coordination.Stop.{get-running-stop_stream}
use musaed.Coordination.Events.{stop, handle}
use musaed.Coordination.Flag.{IsSound, handle-IsSound}
use musaed.Send.Backend.{BackendError, stream_of, addressee, stop_all, stop_failed, handle_error}

stop-IsSound :
    (now : ℕ) (c : String) (o : Option String) (a : App)
    → IsSound a
    → IsSound (stop_stream now c error o a)
unfolding handle
stop-IsSound now c o a h = handle-IsSound now (stop c error o) a h

stop_all-IsSound : (now : ℕ) (cs : List String) (a : App) → IsSound a → IsSound (stop_all now cs a)
unfolding stop_all
stop_all-IsSound now [] a h = h
stop_all-IsSound now (c ∷ cs) a h =
    stop_all-IsSound now cs (stop_stream now c error none a) (stop-IsSound now c none a h)

-- Without a request to expect, the stream of the conversation is gone, if there was one.
stop-ends :
    (now : ℕ) (c d : String) (a : App)
    → IsSound a
    → get d (running (stop_stream now c error none a))
      ≡ ite (text_discrete d c) none (get d (running a))
unfolding is_stale
stop-ends now c d a h = elim (Option-cases (get c (running a))) [
  | inl e ↦ ground (arith, get-running-stop_stream now c d error none a h.registered, e)
  | inr (r, e) ↦ ground (arith, get-running-stop_stream now c d error none a h.registered, e)
]

stop_all-ends :
    (now : ℕ) (d : String) (ts : Dict String) (a : App)
    → IsSound a
    → (get d ts ≡ none → get d (running a) ≡ none)
    → get d (running (stop_all now (keys ts) a)) ≡ none
unfolding stop_all get
stop_all-ends now d [] a h all = all refl
stop_all-ends now d ((c, r) ∷ ts) a h all =
    stop_all-ends now d ts (stop_stream now c error none a) (stop-IsSound now c none a h)
      (λ e. stop-ends now c d a h ∙ ended (text_discrete d c) e all)
  where
    ended :
        (x : Dec (d ≡ c))
        → get d ts ≡ none
        → (ite x (some r) (get d ts) ≡ none → get d (running a) ≡ none)
        → ite x none (get d (running a)) ≡ none
    ended (yes p) e f = refl
    ended (no n) e f = f e

found_absent : (r c : String) (d : Dict String) → get c d ≡ none → stream_of r d ≢ some c
unfolding stream_of get
found_absent r c [] e = ground arith
found_absent r c ((j, q) ∷ d) e = ground (arith, found_absent r c d)

-- The conversation that is found does stream under the request.
get-stream_of :
    (r c : String) (d : Dict String) → IsDict d → stream_of r d ≡ some c → get c d ≡ some r
unfolding stream_of get
get-stream_of r c [] k e = ground arith
get-stream_of r c ((j, q) ∷ d) k e =
    ground (arith, get-stream_of r c d k.1, found_absent r c d, k.0)

get-addressee :
    (o : Option String) (d : Dict String) (p : String × String)
    → IsDict d
    → addressee o d ≡ some p
    → get p.0 d ≡ some p.1
unfolding addressee
get-addressee none d p k e = ground arith
get-addressee (some r) d p k e = elim (text_discrete r "") [
  | yes x ↦ ground arith
  | no x ↦ elim (Option-cases (stream_of r d)) [
    | inl y ↦ ground (arith, y)
    | inr (c, y) ↦ elim (text_discrete c "") [
      | yes z ↦ ground (arith, y)
      | no z ↦ ground (arith, y, get-stream_of r c d k y)
    ]
  ]
]

stop_failed-IsSound :
    (now : ℕ) (o : Option (String × String)) (a : App) → IsSound a → IsSound (stop_failed now o a)
unfolding stop_failed
stop_failed-IsSound now none a h = stop_all-IsSound now (keys (running a)) a h
stop_failed-IsSound now (some (c, r)) a h = stop-IsSound now c (some r) a h

stop_failed-ends :
    (now : ℕ) (o : Option (String × String)) (d : String) (a : App)
    → IsSound a
    → ((p : String × String) → o ≡ some p → get p.0 (running a) ≡ some p.1)
    → get d (running (stop_failed now o a))
      ≡ elim o [ none ↦ none | some p ↦ ite (text_discrete d p.0) none (get d (running a)) ]
unfolding stop_failed is_stale
stop_failed-ends now none d a h f = stop_all-ends now d (running a) a h (λ y. y)
stop_failed-ends now (some (c, r)) d a h f =
    ground (arith, get-running-stop_stream now c d error (some r) a h.registered, f (c, r) refl)

-- An error that names a request with a running stream ends that stream and no other. Every other
-- error, also one that names a request whose stream is gone, ends all streams. The stores stay
-- sound: the flag `isStreaming` is then set exactly while some stream is left.
pub handle_error-ends :
    (now : ℕ) (e : BackendError) (d : String) (a : App)
    → IsSound a
    → IsDict (running a)
    → IsSound (handle_error now e a).0
      × (get d (running (handle_error now e a).0) ≡ elim (addressee e.request_id (running a)) [
        | none ↦ none
        | some p ↦ ite (text_discrete d p.0) none (get d (running a))
      ])
unfolding handle_error
handle_error-ends now e d a h k =
    let o = addressee e.request_id (running a) in
    (
      stop_failed-IsSound now o a h,
      stop_failed-ends now o d a h (λ p x. get-addressee e.request_id (running a) p k x),
    )
