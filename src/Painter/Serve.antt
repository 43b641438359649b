-- ===== src/Painter/Serve.antt =====
-- contrib/painter.py: `main`, the loop that answers until hexe closes the pipe.
pub mod Ends
pub mod Answers
use hexe.Prelude.{
  ℕ, zero, suc, ◌+◌, ◌≡◌, Bool, true, false, Option, none, some, List, [], ◌∷◌, ◌++◌, Text, codes,
  text_eq, length, if◌then◌else◌, ◌||◌, ◌&&◌, ◌==◌, not,
}
use hexe.Wire.{Bytes, Pipe, Filled, full, closed, stuck, recv_body, frame_bytes}
use hexe.Painter.{Output, Request}
use hexe.Painter.Status.{Host, view_status}
use hexe.Painter.Badges.{view_title, view_share}

-- The exceptions that the loop tells apart: those it catches, and any other.
pub data Exc : Type 0 where
  os_error value_error key_error other_error : Exc

pub data Raises (A : Type 0) : Type 0 where
  ok : A → Raises A
  raises : Exc → Raises A

abbrev pub View : Type 0
View = Request → Raises Output

pub data Response : Type 0 where
  answered : Output → Response
  refused : Text → Response

-- The far end of the output pipe: how many more writes it takes before it is closed, and the
-- frames that it has got.
pub record Sink : Type 0 where
  pub room : ℕ
  pub sent : List Bytes

-- JSON, and the painter's table of views. `loads` gives nothing where `json.loads` raises
-- `ValueError`; `dumps` is `json.dumps(obj).encode()`.
pub record Site : Type 0 where
  pub loads : Bytes → Option Request
  pub dumps : Response → Bytes
  pub views : Text → Option View

-- `VIEWS`.
unfoldable pub views : Host → Text → Option View
views host name =
    if text_eq name (codes "status")
    then some (λ req. ok (view_status host req))
    else if text_eq name (codes "float.title") || text_eq name (codes "container.title")
    then some (λ req. ok (view_title req))
    else if text_eq name (codes "share")
    then some (λ req. ok (view_share req))
    else none

-- `(req.get("select") or [""])[0]`
abbrev pub selected : Request → Text
selected req = elim req.select [ none ↦ [] | some l ↦ elim l [ [] ↦ [] | n ∷ ns ↦ n ] ]

-- `{name!r}`, of a printable ASCII name: a backslash is doubled, and the quotes are single ones
-- unless the name holds one and no double one.
has : ℕ → Text → Bool
has c [] = false
has c (d ∷ s) = c == d || has c s

escape : Bool → Text → Text
escape single [] = []
escape single (c ∷ s) =
    if c == b'\\' || (single && c == 39) then b'\\' ∷ c ∷ escape single s else c ∷ escape single s

unfoldable pub repr : Text → Text
unfolding has escape
repr name =
    if has 39 name && not (has b'"' name)
    then b'"' ∷ escape false name ++ b'"' ∷ []
    else 39 ∷ escape true name ++ 39 ∷ []

pub data Sent : Type 0 where
  delivered : Sink → Sent
  failed : Exc → Sent

abbrev pub put : Sink → Option Bytes → Sent
put s none = failed other_error
put s (some b) = elim s.room [
  | zero ↦ failed os_error
  | suc n ↦ delivered (record { room = n; sent = s.sent ++ b ∷ [] })
]

-- `struct.error` is none of the exceptions caught, and a closed pipe raises `OSError`.
unfoldable pub send_frame : Site → Response → Sink → Sent
send_frame site resp s = put s (frame_bytes (site.dumps resp))

-- How one round ends: the loop goes on, ends, or dies of an exception.
pub data Next : Type 0 where
  go : Sink → Next
  leave : Sink → Next
  crash : Exc → Sink → Next

abbrev after_refusal : Sink → Sent → Next
after_refusal s (delivered t) = go t
after_refusal s (failed os_error) = leave s
after_refusal s (failed e) = crash e s

-- `except (OSError, ValueError, KeyError)`: the refusal is sent, and `OSError` ends the loop.
unfoldable pub rescue : Site → Exc → Sink → Next
unfolding send_frame
rescue site other_error s = crash other_error s
rescue site _ s = after_refusal s (send_frame site (refused (codes "render failed")) s)

abbrev after_send : Site → Sink → Sent → Next
after_send site s (delivered t) = go t
after_send site s (failed e) = rescue site e s

abbrev answer : Site → Sink → Raises Output → Next
answer site s (raises e) = rescue site e s
answer site s (ok out) = after_send site s (send_frame site (answered out) s)

abbrev unknown_view : Text → Response
unknown_view name = refused (codes "unknown view " ++ repr name)

abbrev dispatch : Site → Request → Sink → Option View → Next
dispatch site req s none = after_send site s (send_frame site (unknown_view (selected req)) s)
dispatch site req s (some fn) = answer site s (fn req)

-- The body of the loop for a request that was read.
unfoldable pub round : Site → Request → Sink → Next
unfolding rescue repr
round site req s = dispatch site req s (site.views (selected req))

-- How the program ends.
pub data Ended : Type 0 where
  stopped : Sink → Ended
  crashed : Exc → Sink → Ended
  running : Ended

abbrev continue : (Sink → Ended) → Next → Ended
continue k (go s) = k s
continue k (leave s) = stopped s
continue k (crash e s) = crashed e s

abbrev on_request : (Request → Ended) → Sink → Option Request → Ended
on_request k s none = stopped s
on_request k s (some req) = k req

abbrev on_frame : (Bytes → Pipe → Ended) → Sink → Filled → Ended
on_frame k s (full body later) = k body later
on_frame k s closed = stopped s
on_frame k s stuck = running

-- `while True`: a frame that does not decode leaves the loop, as the end of the pipe does.
-- `running` means that the fuel ran out.
unfoldable pub main : Site → ℕ → Pipe → Sink → Ended
main site zero p s = running
main site (suc fuel) p s =
    on_frame
      (λ body later.
        on_request (λ req. continue (λ t. main site fuel later t) (round site req s)) s
          (site.loads body))
      s (recv_body p)
