-- ===== src/Ipc/Transport.antt =====
-- apps/web/src/lib/ipc/transport.ts: one call of a backend command. The schemas, the budgets and the
-- allowlist are tables of the bridge; what the backend answers, and when, is given. A value of `E`
-- is an error that is not an `IpcError`: a rejection, or the error of an answer.
pub mod Laws
use musaed.Base.{
  ℕ, zero, suc, String, Bool, true, false, Option, none, some, List, [], ◌∷◌, if◌then◌else◌, ◌*◌,
  ltb,
}
use musaed.Ipc.Latency.{Latency, Reading, record_latency}

-- `IpcError`: the codes that the transport gives, and what `sanitizeError` makes of another error.
pub data IpcError (E : Type 0) : Type 0 where
  timeout invalid_response internal_error : IpcError E
  sanitized : E → IpcError E

-- What a `throw` carries.
pub data Thrown (E : Type 0) : Type 0 where
  ipc : IpcError E → Thrown E
  raw : E → Thrown E

-- `ApiResponse`, as `callInternal` tells the answers apart.
pub data Response (D E : Type 0) : Type 0 where
  not_an_object no_payload : Response D E
  succeeded : Option D → Response D E
  refused : E → Response D E

-- How the import and the invocation end.
pub data Invoked (D E : Type 0) : Type 0 where
  import_failed rejected : E → Invoked D E
  timed_out : Invoked D E
  answered : Response D E → Invoked D E

-- What `callInternal` returns or throws.
pub data Called (D E : Type 0) : Type 0 where
  returned : Option D → Called D E
  returned_true returned_null : Called D E
  thrown : IpcError E → Called D E

pub data Toast (E : Type 0) : Type 0 where
  security_block invalid_request : Toast E
  backend_error : E → Toast E

pub record Options : Type 0 where
  pub quiet : Bool
  pub throw_on_error : Bool

-- The tables that a call reads. A command without a schema has `none`.
pub record Bridge (A D : Type 0) : Type 0 where
  pub base_url : A → Option String
  pub is_valid_url : String → Bool
  pub input_schema : String → Option (A → Bool)
  pub return_schema : String → Option (Option D → Option (Option D))
  pub budget : String → ℕ
  pub is_tauri : Bool

-- `createIpcTimeout`: after how long a call is given up.
unfoldable pub ipc_timeout : ℕ → ℕ
ipc_timeout budget = if ltb 0 budget then budget * 3 else 30000

-- How the body of the `try` ends: with a result and the toasts shown, or with a `throw`.
pub data Tried (R E : Type 0) : Type 0 where
  ended : R → List (Toast E) → Latency → Tried R E
  threw : Thrown E → Latency → Tried R E

-- `err instanceof IpcError ? err : new IpcError(sanitizeError(err))`
abbrev pub as_ipc_error : {E : Type 0} → Thrown E → IpcError E
as_ipc_error (ipc e) = e
as_ipc_error (raw e) = sanitized e

abbrev pub unless : {E : Type 0} → Bool → Toast E → List (Toast E)
unless quiet t = if quiet then [] else t ∷ []

-- `awaitIpcResponse`, and the import before it.
unfoldable pub await_response :
    {D E : Type 0} → String → ℕ → Reading → Invoked D E → Latency → Tried (Response D E) E
await_response command budget r (import_failed e) s = threw (raw e) s
await_response command budget r (rejected e) s = threw (raw e) (record_latency command budget r s)
await_response command budget r timed_out s = threw (ipc timeout) s
await_response command budget r (answered not_an_object) s =
    threw (ipc invalid_response) (record_latency command budget r s)
await_response command budget r (answered response) s = ended response [] s

-- `response.data ?? true`
abbrev pub or_true : {D E : Type 0} → Option D → Called D E
or_true none = returned_true
or_true (some d) = returned (some d)

-- What is made of the data of an answer that reports success.
abbrev pub checked :
    {D E : Type 0}
    → Option (Option D → Option (Option D))
    → Option D
    → String
    → ℕ
    → Reading
    → Latency
    → Tried (Called D E) E
checked none d command budget r s = ended (or_true d) [] (record_latency command budget r s)
checked (some schema) d command budget r s = elim (schema d) [
  | none ↦ threw (ipc invalid_response) s
  | some parsed ↦ ended (returned parsed) [] (record_latency command budget r s)
]

-- What is made of an answer.
unfoldable pub read_response :
    {A D E : Type 0}
    → Bridge A D
    → Options
    → String
    → Reading
    → Response D E
    → Latency
    → Tried (Called D E) E
read_response b o command r (succeeded d) s =
    checked (b.return_schema command) d command (b.budget command) r s
read_response b o command r (refused e) s =
    let t = record_latency command (b.budget command) r s in
    if o.throw_on_error
    then threw (ipc (sanitized e)) t
    else ended returned_null (unless o.quiet (backend_error e)) t
read_response b o command r _ s = threw (ipc internal_error) s

abbrev pub and_then :
    {A D E : Type 0}
    → Bridge A D
    → Options
    → String
    → Reading
    → Tried (Response D E) E
    → Tried (Called D E) E
and_then b o command r (ended response _ s) = read_response b o command r response s
and_then b o command r (threw e s) = threw e s

-- The `catch`: a second reading of the clock.
abbrev pub caught :
    {D E : Type 0}
    → String
    → ℕ
    → Reading
    → Tried (Called D E) E
    → Called D E × List (Toast E) × Latency
caught command budget r (ended result toasts s) = (result, toasts, s)
caught command budget r (threw e s) =
    (thrown (as_ipc_error e), [], record_latency command budget r s)

abbrev pub is_url_blocked : {A D : Type 0} → Bridge A D → A → Bool
is_url_blocked b args = elim (b.base_url args) [
  | none ↦ false
  | some url ↦ if b.is_valid_url url then false else true
]

abbrev pub is_input_valid : {A D : Type 0} → Bridge A D → String → A → Bool
is_input_valid b command args = elim (b.input_schema command) [
  | none ↦ true
  | some schema ↦ schema args
]

-- `callInternal`: `first` and `second` are the readings in the `try` and in the `catch`.
unfoldable pub call_internal :
    {A D E : Type 0}
    → Bridge A D
    → Options
    → String
    → A
    → Invoked D E
    → Reading
    → Reading
    → Latency
    → Called D E × List (Toast E) × Latency
unfolding await_response read_response
call_internal b o command args invoked first second s =
    if is_url_blocked b args
    then (returned_null, unless o.quiet security_block, s)
    else if is_input_valid b command args
    then if b.is_tauri
      then caught command (b.budget command) second
          (and_then b o command first (await_response command (b.budget command) first invoked s))
      else (returned_null, [], s)
    else (returned_null, unless o.quiet invalid_request, s)
