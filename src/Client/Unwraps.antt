-- ===== src/Client/Unwraps.antt =====
-- What the clients make of a reply.
use hexe.Prelude.{
  ◌<◌, ◌≡◌, refl, sym, ap, ◌∙◌, ◌⊎◌, inl, inr, true, false, Option, none, some, ◌++◌, codes, Text,
  text_eq, Bool-cases, text_eq→eq, text_eq_refl, if◌then◌else◌,
}
use hexe.Wire.{Bytes, frame_bytes}
use hexe.Wire.Reads.{flat, IsLive}
use hexe.Wire.Frames.{recv_body-frame_bytes}
use hexe.Client.{
  Json, null, boolean, number, other_number, text, array, object, Items, no_item, item, Members,
  no_member, member, attribute_error, returns, raised, failed, find, get, truthy,
}
use hexe.Client.Line.{Peer, at}
use hexe.Client.Delivers.{pipe, span, two_fills}
use hexe.Client.Events.{Codec}
use hexe.Client.Calls.{
  unwrap, ok, ok_result, value_of, put, call_raw, args_request, by_uuid, has_uuid, pane_with,
}

-- The first pane that has the identifier, behind panes that have another.
abbrev pub IsFirst : Text → Json → Items → Type 0
IsFirst uuid p no_item = ⊥
IsFirst uuid p (item q qs) =
    ((has_uuid uuid q ≡ returns true) × (p ≡ q))
    ⊎ ((has_uuid uuid q ≡ returns false) × IsFirst uuid p qs)

pane_with-first :
    (uuid : Text) (p : Json) (ps : Items) → IsFirst uuid p ps → pane_with uuid ps ≡ returns p
unfolding pane_with
pane_with-first uuid p no_item h = absurd h
pane_with-first uuid p (item q qs) (inl h) = rw h.0 (ap returns (sym h.1))
pane_with-first uuid p (item q qs) (inr h) = rw h.0 (pane_with-first uuid p qs h.1)

find-put : (key : Text) (v : Json) (ms : Members) → find key (put key v ms) ≡ some v
unfolding find put
find-put key v no_member = rw (text_eq_refl key) refl
find-put key v (member k w ms) = elim (Bool-cases (text_eq k key)) [
  | inl is ↦ rw is (rw is refl)
  | inr not ↦ rw not (rw not (find-put key v ms))
]

-- The other keys of a reply keep their values.
find-put_other :
    (key other : Text) (v : Json) (ms : Members)
    → text_eq key other ≡ false
    → find other (put key v ms) ≡ find other ms
unfolding find put
find-put_other key other v no_member h = rw h refl
find-put_other key other v (member k w ms) h = elim (Bool-cases (text_eq k key)) [
  | inl is ↦
      let same : text_eq k other ≡ false = ap (λ t. text_eq t other) (text_eq→eq k key is) ∙ h in
      rw is (rw same refl)
  | inr differ ↦
      rw differ (ap (λ t. if text_eq k other then some w else t) (find-put_other key other v ms h))
]

pub record Unwrapped (r : Json) (v : Json) : Type 0 where
  pub ms : Members
  pub ns : Members
  pub was : r ≡ object ms
  pub gives : unwrap r ≡ returns (object ns)
  pub result : find (codes "result") ns ≡ some v
  pub others : (key : Text) → text_eq (codes "result") key ≡ false → find key ns ≡ find key ms

get-some : (key : Text) (ms : Members) (v : Json) → find key ms ≡ some v → get key ms ≡ v
unfolding get
get-some key ms v e = rw e refl

unwrap-array :
    (ms : Members) (vals : Items) (v : Json)
    → truthy (get (codes "ok") ms) ≡ true
    → find (codes "result") ms ≡ some (array vals)
    → value_of ms vals ≡ returns v
    → unwrap (object ms) ≡ returns (object (put (codes "result") v ms))
unfolding unwrap
unwrap-array ms vals v yes_ok here e =
    rw yes_ok (rw (get-some (codes "result") ms (array vals) here) (rw e refl))

ok-array :
    (ms : Members) (vals : Items) (v : Json)
    → truthy (get (codes "ok") ms) ≡ true
    → find (codes "result") ms ≡ some (array vals)
    → value_of ms vals ≡ returns v
    → ok (object ms) ≡ returns v
unfolding ok
ok-array ms vals v yes_ok here e = rw yes_ok (rw here e)

-- What a reply is that `ok` takes a value of.
record IsOk (ms : Members) (v : Json) : Type 0 where
  vals : Items
  yes_ok : truthy (get (codes "ok") ms) ≡ true
  here : find (codes "result") ms ≡ some (array vals)
  value : value_of ms vals ≡ returns v

ok_result-array :
    (ms : Members) (v : Json) (r : Option Json)
    → truthy (get (codes "ok") ms) ≡ true
    → find (codes "result") ms ≡ r
    → ok_result ms r ≡ returns v
    → IsOk ms v
unfolding ok_result
ok_result-array ms v (some (array vals)) y h e = record {
  vals = vals;
  yes_ok = y;
  here = h;
  value = e;
}
ok_result-array ms v none y h e = absurd cc
ok_result-array ms v (some null) y h e = absurd cc
ok_result-array ms v (some (boolean b)) y h e = absurd cc
ok_result-array ms v (some (number n)) y h e = absurd cc
ok_result-array ms v (some (other_number s)) y h e = absurd cc
ok_result-array ms v (some (text s)) y h e = absurd cc
ok_result-array ms v (some (object o)) y h e = absurd cc

ok-object : (ms : Members) (v : Json) → ok (object ms) ≡ returns v → IsOk ms v
unfolding ok
ok-object ms v e = elim (Bool-cases (truthy (get (codes "ok") ms))) [
  | inl y ↦ ok_result-array ms v _ y refl (sym (rw y refl) ∙ e)
  | inr n ↦ let dead : failed ≡ returns v = sym (rw n refl) ∙ e in absurd cc
]

not_returned :
    (r v : Json)
    → ok r ≡ (if truthy r then raised attribute_error else failed)
    → ok r ≡ returns v
    → ⊥
not_returned r v h e = elim (Bool-cases (truthy r)) [
  | inl y ↦ let dead : raised attribute_error ≡ returns v = sym (h ∙ rw y refl) ∙ e in cc
  | inr n ↦ let dead : failed ≡ returns v = sym (h ∙ rw n refl) ∙ e in cc
]

ok-shape : (r v : Json) → ok r ≡ returns v → (ms : Members) × (r ≡ object ms)
unfolding ok
ok-shape (object ms) v e = (ms, refl)
ok-shape null v e = absurd (not_returned null v refl e)
ok-shape (boolean b) v e = absurd (not_returned (boolean b) v refl e)
ok-shape (number n) v e = absurd (not_returned (number n) v refl e)
ok-shape (other_number s) v e = absurd (not_returned (other_number s) v refl e)
ok-shape (text s) v e = absurd (not_returned (text s) v refl e)
ok-shape (array xs) v e = absurd (not_returned (array xs) v refl e)

-- Where one test takes a value of a reply, the other keeps the reply, with that value under its
-- key and every other key as it was.
pub ok-unwrap : (r v : Json) → ok r ≡ returns v → Unwrapped r v
ok-unwrap r v e =
    let (ms, is) = ok-shape r v e in
    let o = ok-object ms v (ap ok (sym is) ∙ e) in
    record {
      ms = ms;
      ns = put (codes "result") v ms;
      was = is;
      gives = ap unwrap is ∙ unwrap-array ms o.vals v o.yes_ok o.here o.value;
      result = find-put (codes "result") v ms;
      others = λ key h. find-put_other (codes "result") key v ms h;
    }

call_raw-delivers :
    (codec : Codec) (req body bytes more : Bytes) (peer : Peer) (v : Json)
    → frame_bytes body ≡ some bytes
    → codec.loads body ≡ some v
    → flat (pipe (peer req)) ≡ bytes ++ more
    → IsLive (pipe (peer req))
    → span (peer req) < 10000
    → call_raw codec req peer ≡ returns v
unfolding call_raw
call_raw-delivers codec req body bytes more peer v h loads e l lt =
    let (q, got, left, live) = recv_body-frame_bytes body bytes more (pipe (peer req)) h e l in
    let p = two_fills 10000 (at 0 (peer req)) body q lt got in rw p.head (rw p.tail (rw loads refl))

one_item :
    (ms : Members) (ps : Items)
    → get (codes "n") ms ≡ number 1
    → value_of ms (item (array ps) no_item) ≡ returns (array ps)
unfolding value_of
one_item ms ps one = rw one refl

-- Where the reply to the request for the panes comes in time, in whatever chunks (none of them
-- empty), is read back, says ok and holds one value, a list of panes: the first pane with the
-- identifier is found, if the panes before it have other identifiers.
pub by_uuid-first :
    (codec : Codec) (uuid : Text) (peer : Peer) (req bytes more : Bytes) (ms : Members) (ps : Items)
    (p : Json)
    → frame_bytes (codec.dumps (args_request (codes "panes") no_item)) ≡ some req
    → frame_bytes (codec.dumps (object ms)) ≡ some bytes
    → codec.loads (codec.dumps (object ms)) ≡ some (object ms)
    → truthy (get (codes "ok") ms) ≡ true
    → get (codes "n") ms ≡ number 1
    → find (codes "result") ms ≡ some (array (item (array ps) no_item))
    → flat (pipe (peer req)) ≡ bytes ++ more
    → IsLive (pipe (peer req))
    → span (peer req) < 10000
    → IsFirst uuid p ps
    → by_uuid codec uuid peer ≡ returns p
unfolding by_uuid
by_uuid-first codec uuid peer req bytes more ms ps p asked framed loads yes_ok one here e l lt
      first =
    let r = call_raw-delivers codec req _ bytes more peer (object ms) framed loads e l lt in
    rw asked (
      rw r
        (rw (ok-array ms _ _ yes_ok here (one_item ms ps one)) (pane_with-first uuid p ps first)))
