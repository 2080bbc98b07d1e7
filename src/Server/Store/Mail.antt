-- ===== src/Server/Store/Mail.antt =====
-- crates/poker-server/src/connection.rs: what a seat link's connection has been sent, and what its
-- replay buffer holds.
use vibe_poker.Base.{
  ℕ, Bool, true, false, List, [], ◌∷◌, ◌++◌, Option, none, some, get_elem?, get_elem?-update_keeps,
  get_elem?-update_same, all_of, all_of-append, ◌≡◌, refl, sym, ap, arith, if◌then◌else◌, ltb,
  length, ◌&&◌,
}
use mathlib.Core.Path.{subst}
use vibe_poker.Net.Protocol.{ServerMessage}
use vibe_poker.Server.Store.{
  Store, Connection, SeatLink, ReplayBuffer, inner_of, try_send_at, buffer_of, buffer, on_link,
  current, queued, send_current, replay_push, pushed, is_some, outbound_capacity,
}

abbrev pub outbox_of : Option Connection → List ServerMessage
outbox_of none = []
outbox_of (some c) = c.outbox

abbrev pub box : Store → Option ℕ → List ServerMessage
box w none = []
box w (some conn) = outbox_of (get_elem? w.connections conn)

-- What the link's current connection has in its queue.
abbrev pub mail : Store → ℕ → List ServerMessage
mail w link = box w (current w link)

-- A change of a link's buffer leaves every link with its connection.
pub current-on_link :
    (link m : ℕ) (f : SeatLink → SeatLink) (w : Store)
    → ((l : SeatLink) → (f l).inner ≡ l.inner)
    → current (on_link link f w) m ≡ current w m
current-on_link link m f w h = get_elem?-update_same inner_of f w.links link m (λ l. ap some (h l))

links-try_send_at :
    (o : Option ℕ) (msg : ServerMessage) (w : Store) → (try_send_at o msg w).links ≡ w.links
links-try_send_at none msg w = refl
links-try_send_at (some conn) msg w = refl

-- Sending leaves the links.
pub links-send_current :
    (link : ℕ) (msg : ServerMessage) (w : Store) → (send_current link msg w).links ≡ w.links
unfolding send_current
links-send_current link msg w = links-try_send_at (current w link) msg w

module _ (f : ServerMessage → Bool) where
  queued-all :
      (msg : ServerMessage) (c : Connection)
      → f msg ≡ true
      → all_of f c.outbox ≡ true
      → all_of f (queued msg c).outbox ≡ true
  unfolding queued
  queued-all msg c h k =
      let longer = all_of-append f c.outbox (msg ∷ []) k (ground arith) in
      elim (c.writing && ltb (length c.outbox) outbound_capacity)
        as (λ b.
          all_of f (if b then record c { outbox = c.outbox ++ (msg ∷ []) } else c).outbox ≡ true) [
            | true ↦ longer
            | false ↦ k
          ]

  -- If the message has the property wherever it is queued, then all that is queued keeps it.
  send-box :
      (msg : ServerMessage) (w : Store) (o p : Option ℕ)
      → (o ≡ p → f msg ≡ true)
      → all_of f (box w p) ≡ true
      → all_of f (box (try_send_at o msg w) p) ≡ true
  send-box msg w none p h k = k
  send-box msg w (some c) none h k = k
  send-box msg w (some c) (some d) h k =
      get_elem?-update_keeps (λ o. all_of f (outbox_of o) ≡ true) (queued msg) w.connections c d
        (λ e x. queued-all msg x (h (ap some e))) k

  pub send_current-mail :
      (link m : ℕ) (msg : ServerMessage) (w : Store)
      → (current w link ≡ current w m → f msg ≡ true)
      → all_of f (mail w m) ≡ true
      → all_of f (mail (send_current link msg w) m) ≡ true
  unfolding send_current
  send_current-mail link m msg w h k =
      let same = ap (λ links. inner_of (get_elem? links m)) (links-send_current link msg w) in
      subst (λ p. all_of f (box (send_current link msg w) p) ≡ true) (sym same)
        (send-box msg w (current w link) (current w m) h k)

  pushed-all :
      (msg : ServerMessage) (b : ReplayBuffer)
      → f msg ≡ true
      → all_of f b.events ≡ true
      → all_of f (pushed msg b).events ≡ true
  pushed-all msg b h k =
      let longer = all_of-append f b.events (msg ∷ []) k (ground arith) in
      elim (is_some b.hand_id)
        as (λ x.
          all_of f (if x then record b { events = b.events ++ (msg ∷ []) } else b).events ≡ true) [
            | true ↦ longer
            | false ↦ k
          ]

  pub replay_push-buffer :
      (link m : ℕ) (msg : ServerMessage) (w : Store)
      → (link ≡ m → f msg ≡ true)
      → all_of f (buffer w m).events ≡ true
      → all_of f (buffer (replay_push msg link w) m).events ≡ true
  unfolding replay_push
  replay_push-buffer link m msg w h k =
      get_elem?-update_keeps (λ o. all_of f (buffer_of o).events ≡ true)
        (λ l. record l { replay = pushed msg l.replay }) w.links link m
        (λ e l. pushed-all msg l.replay (h e)) k
