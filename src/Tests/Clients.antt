-- ===== src/Tests/Clients.antt =====
-- The clients of the control socket.
use hexe.Prelude.{
  ◌≡◌, ◌≢◌, refl, inl, inr, true, Option, none, some, List, [], ◌∷◌, ◌++◌, codes, Text, text_eq,
  if◌then◌else◌, arith,
}
use hexe.Wire.{Bytes, frame_bytes}
use hexe.Client.{
  Json, boolean, number, text, array, object, no_item, item, no_member, member, returns, unfinished,
  get, truthy, Members,
}
use hexe.Client.Line.{Line, at, reset, Peer, silent, hung_up, later}
use hexe.Client.Events.{Codec, collect}
use hexe.Client.Collects.{subscribed, subscribe-collects}
use hexe.Client.Calls.{ok, by_uuid, has_uuid}
use hexe.Client.Ends.{collect-ends}
use hexe.Client.Unwraps.{Unwrapped, ok-unwrap, by_uuid-first}

-- A stand-in for JSON: a record is written as its first key, and read back among those known.
abbrev key_of : Json → Bytes
key_of (object (member k v ms)) = k
key_of _ = []

abbrev among : List Json → Bytes → Option Json
among [] b = none
among (v ∷ vs) b = if text_eq (key_of v) b then some v else among vs b

abbrev codec : List Json → Codec
codec vs = record { loads = among vs; dumps = key_of }

abbrev ack : Members
ack = member (codes "ok") (boolean true) no_member

abbrev created : Json
created = object (member (codes "tab_created") (number 1) no_member)

abbrev closed_tab : Json
closed_tab = object (member (codes "tab_closed") (number 2) no_member)

abbrev pushed : Bytes
pushed = (0 ∷ 0 ∷ 0 ∷ 11 ∷ codes "tab_created") ++ 0 ∷ 0 ∷ 0 ∷ 10 ∷ codes "tab_closed"

-- The acknowledgement comes with a part of the first event.
abbrev pushing : Peer
pushing req = later 100 (0 ∷ 0 ∷ 0 ∷ []) (
    later 5 ((2 ∷ codes "ok") ++ 0 ∷ 0 ∷ 0 ∷ 11 ∷ codes "tab_")
      (later 700 (codes "created") (later 0 (0 ∷ 0 ∷ 0 ∷ 10 ∷ codes "tab_closed") silent)))

abbrev streaming : Codec
streaming = codec (object ack ∷ created ∷ closed_tab ∷ [])

subscribe-collects_example :
    subscribed streaming (boolean true) 20000 3 8000 pushing ≡ returns (created ∷ closed_tab ∷ [])
unfolding frame_bytes text_eq get truthy
subscribe-collects_example =
    subscribe-collects streaming (boolean true) 20000 3 8000 pushing _ _ pushed ack
      (created ∷ closed_tab ∷ []) refl refl refl refl
      (_, _, refl, refl, refl, refl, (_, _, refl, refl, refl, refl, refl)) refl (omega arith)
      (omega arith) (omega arith) (omega arith)

abbrev pane : Text → Json
pane uuid = object (member (codes "uuid") (text uuid) no_member)

abbrev reply : Members
reply = member (codes "ok") (boolean true) (
    member (codes "n") (number 1) (
      member (codes "result")
        (array (item (array (item (pane (codes "a1")) (item (pane (codes "b2")) no_item))) no_item))
        no_member))

abbrev replying : Peer
replying req = later 20 (0 ∷ 0 ∷ []) (later 30 (0 ∷ 2 ∷ codes "ok") hung_up)

by_uuid-first_example :
    by_uuid (codec (object reply ∷ [])) (codes "b2") replying ≡ returns (pane (codes "b2"))
unfolding frame_bytes text_eq get truthy has_uuid
by_uuid-first_example =
    by_uuid-first (codec (object reply ∷ [])) (codes "b2") replying _ _ [] reply _ _ refl refl refl
      refl refl refl refl (omega arith) (omega arith) (inr (refl, inl (refl, refl)))

ok-unwrap_example :
    Unwrapped (object reply) (array (item (pane (codes "a1")) (item (pane (codes "b2")) no_item)))
unfolding ok text_eq
ok-unwrap_example = ok-unwrap (object reply) _ refl

-- A frame that breaks off, then a chunk with nothing in it.
abbrev broken_off : Line
broken_off = later 100 (0 ∷ 0 ∷ 0 ∷ 11 ∷ codes "tab_") (later 60 [] reset)

collect-ends_example : collect streaming 9 (at 0 broken_off) 8000 ≢ unfinished
collect-ends_example = collect-ends streaming 9 8000 (at 0 broken_off) (omega arith)
