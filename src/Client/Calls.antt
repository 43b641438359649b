-- ===== src/Client/Calls.antt =====
-- scripts/smoke_api_socket.py: `call`, `raw_api`, `api` and `responsive`; and
-- scripts/smoke_api_geometry.py: `api`, `ok`, `panes` and `by_uuid`. Both tests read a reply alike.
use hexe.Prelude.{
  ℕ, suc, Bool, false, Option, none, some, [], codes, if◌then◌else◌, ◌==◌, Text, text_eq,
}
use hexe.Wire.{Bytes, unpack, frame_bytes}
use hexe.Client.{
  Json, null, boolean, number, text, array, object, Items, no_item, item, Members, no_member,
  member, Outcome, returns, raised, failed, unfinished, then_do, timed_out, os_error, struct_error,
  value_error, attribute_error, key_error, index_error, type_error, find, get, truthy,
}
use hexe.Client.Line.{at, Read, whole, ended, expired, broke, spinning, fill, Peer}
use hexe.Client.Events.{Codec}

abbrev pub request : Text → Option Json → Json
request name none = object (member (codes "call") (text name) no_member)
request name (some arg) =
    object (member (codes "call") (text name) (member (codes "arg") arg no_member))

-- `api(name, *args)` of the other test, which puts the arguments in a list.
abbrev pub args_request : Text → Items → Json
args_request name no_item = object (member (codes "call") (text name) no_member)
args_request name (item v vs) =
    object (member (codes "call") (text name) (member (codes "args") (array (item v vs)) no_member))

module _ (codec : Codec) where
  abbrev loaded : Option Json → Outcome Json
  loaded none = raised value_error
  loaded (some v) = returns v

  -- A body that ends early is loaded as far as it came.
  abbrev after_body : Read → Outcome Json
  after_body (whole body c) = loaded (codec.loads body)
  after_body (ended got) = loaded (codec.loads got)
  after_body expired = raised timed_out
  after_body broke = raised os_error
  after_body spinning = unfinished

  abbrev after_header : Read → Outcome Json
  after_header (whole hdr c) = after_body (fill (suc (unpack hdr)) (unpack hdr) 10000 [] c)
  after_header (ended got) = returns null
  after_header expired = raised timed_out
  after_header broke = raised os_error
  after_header spinning = unfinished

  -- `call(payload)`, which reads the reply.
  unfoldable pub call_raw : Bytes → Peer → Outcome Json
  unfolding fill
  call_raw payload peer = after_header (fill 5 4 10000 [] (at 0 (peer payload)))

  abbrev sends : Peer → Option Bytes → Outcome Json
  sends peer none = raised struct_error
  sends peer (some b) = call_raw b peer

  unfoldable pub raw_api : Text → Option Json → Peer → Outcome Json
  unfolding call_raw
  raw_api name arg peer = sends peer (frame_bytes (codec.dumps (request name arg)))

  unfoldable pub call_args : Text → Items → Peer → Outcome Json
  unfolding call_raw
  call_args name args peer = sends peer (frame_bytes (codec.dumps (args_request name args)))

unfoldable pub count : Items → ℕ
count no_item = 0
count (item v vs) = suc (count vs)

-- `x == 1`, in which `True` is one.
unfoldable pub is_one : Json → Bool
is_one (boolean b) = b
is_one (number n) = n == 1
is_one _ = false

-- `(r.get("n") or len(vals)) == 1`
unfoldable pub one_value : Members → Items → Bool
unfolding count truthy is_one get
one_value r vals = let n = get (codes "n") r in if truthy n then is_one n else count vals == 1

abbrev first : Items → Outcome Json
first no_item = raised index_error
first (item v vs) = returns v

-- `vals[0] if (r.get("n") or len(vals)) == 1 else vals`
unfoldable pub value_of : Members → Items → Outcome Json
unfolding one_value
value_of r vals = if one_value r vals then first vals else returns (array vals)

-- `dict(r, result=v)`
unfoldable pub put : Text → Json → Members → Members
put key v no_member = member key v no_member
put key v (member k w ms) = if text_eq k key then member k v ms else member k w (put key v ms)

abbrev with_result : Members → Outcome Json → Outcome Json
with_result ms o = then_do o (λ v. returns (object (put (codes "result") v ms)))

unfoldable pub unwrap_list : Members → Json → Outcome Json
unfolding value_of put
unwrap_list ms (array vals) = with_result ms (value_of ms vals)
unwrap_list ms v = returns (object ms)

-- What `api` makes of the reply: `r and r.get("ok") and isinstance(r.get("result"), list)`.
unfoldable pub unwrap : Json → Outcome Json
unfolding unwrap_list get truthy
unwrap (object ms) =
    if truthy (get (codes "ok") ms)
    then unwrap_list ms (get (codes "result") ms)
    else returns (object ms)
unwrap v = if truthy v then raised attribute_error else returns v

unfoldable pub api : Codec → Text → Option Json → Peer → Outcome Json
unfolding unwrap raw_api
api codec name arg peer = then_do (raw_api codec name arg peer) unwrap

unfoldable pub ok_result : Members → Option Json → Outcome Json
unfolding value_of
ok_result ms none = raised key_error
ok_result ms (some (array vals)) = value_of ms vals
ok_result ms (some v) = failed

-- `ok(r, what)`
unfoldable pub ok : Json → Outcome Json
unfolding ok_result find get truthy
ok (object ms) =
    if truthy (get (codes "ok") ms) then ok_result ms (find (codes "result") ms) else failed
ok v = if truthy v then raised attribute_error else failed

-- `p["uuid"] == uuid`
unfoldable pub has_uuid : Text → Json → Outcome Bool
unfolding find
has_uuid uuid (object ms) = elim (find (codes "uuid") ms) [
  | none ↦ raised key_error
  | some (text s) ↦ returns (text_eq s uuid)
  | some v ↦ returns false
]
has_uuid uuid v = raised type_error

-- `for p in panes(): if p["uuid"] == uuid: return p`, and `fail` behind the loop.
unfoldable pub pane_with : Text → Items → Outcome Json
unfolding has_uuid
pane_with uuid no_item = failed
pane_with uuid (item p ps) =
    let rest = pane_with uuid ps in then_do (has_uuid uuid p) (λ b. if b then returns p else rest)

-- The iteration over keys, or over characters, meets none that `p["uuid"]` takes.
unfoldable pub pane_in : Text → Json → Outcome Json
unfolding pane_with truthy
pane_in uuid (array ps) = pane_with uuid ps
pane_in uuid (object ms) = if truthy (object ms) then raised type_error else failed
pane_in uuid (text s) = if truthy (text s) then raised type_error else failed
pane_in uuid v = raised type_error

-- `panes()` and `by_uuid(uuid)`
unfoldable pub panes : Codec → Peer → Outcome Json
unfolding ok call_args
panes codec peer = then_do (call_args codec (codes "panes") no_item peer) ok

unfoldable pub by_uuid : Codec → Text → Peer → Outcome Json
unfolding panes pane_in
by_uuid codec uuid peer = then_do (panes codec peer) (pane_in uuid)
