-- ===== src/Server/Sink/Buffers.antt =====
-- crates/poker-server/src/table.rs and connection.rs: what the events of a hand leave in a seat's
-- replay buffer.
use mathlib.Core.Logic.{◌≢◌}
use vibe_poker.Base.{
  ℕ, zero, suc, true, false, List, [], ◌∷◌, none, some, get_elem?, get_elem?-update_self,
  get_elem?-update_ne, get_elem?-update_keeps, ◌==◌, ◌≡◌, ◌∙◌, refl, sym, ap, arith, Bool-cases,
  inl, inr, Option-cases,
}
use vibe_poker.Net.Protocol.{ServerMessage}
use vibe_poker.Server.Store.{
  Store, is_some, SeatLink, buffer, buffer_of, on_link, replay_begin, replay_end, replay_push,
  pushed, begun, sealed,
}
use vibe_poker.Server.Store.Mail.{links-send_current}
use vibe_poker.Server.Sink.{mem, fan, fan_each, begin_each, seal_each}

abbrev pub IsNodup : List ℕ → Type 0
IsNodup [] = Unit
IsNodup (x ∷ xs) = (mem x xs ≡ false) × IsNodup xs

pub get_elem?-mem : (x : ℕ) (xs : List ℕ) (i : ℕ) → get_elem? xs i ≡ some x → mem x xs ≡ true
get_elem?-mem x [] i h = absurd (ground arith)
get_elem?-mem x (y ∷ ys) zero h = ground arith
get_elem?-mem x (y ∷ ys) (suc i) h = ground (arith, get_elem?-mem x ys i h)

not_mem-ne : (x y : ℕ) (xs : List ℕ) → mem x xs ≡ false → mem y xs ≡ true → (x == y) ≡ false
not_mem-ne x y xs h k = elim (Bool-cases (x == y)) [
  | inl e ↦ (let same : x ≡ y = ground arith in absurd (ground arith))
  | inr e ↦ e
]

buffer-on_link_ne :
    (g : SeatLink → SeatLink) (link m : ℕ) (w : Store)
    → (link == m) ≡ false
    → buffer (on_link link g w) m ≡ buffer w m
buffer-on_link_ne g link m w h =
    let apart : link ≢ m = λ e. ground arith in
    ap buffer_of (get_elem?-update_ne g w.links link m apart)

pub buffer-push_ne :
    (msg : ServerMessage) (link m : ℕ) (w : Store)
    → (link == m) ≡ false
    → buffer (replay_push msg link w) m ≡ buffer w m
unfolding replay_push
buffer-push_ne msg link m w h = buffer-on_link_ne _ link m w h

pub buffer-push :
    (msg : ServerMessage) (m : ℕ) (w : Store)
    → buffer (replay_push msg m w) m ≡ pushed msg (buffer w m)
unfolding replay_push
buffer-push msg m w = elim (Option-cases (get_elem? w.links m)) [
  | inl e ↦
      ap buffer_of
        (get_elem?-update_keeps (λ o. o ≡ none) _ w.links m m (λ _ x h. absurd (ground arith)) e)
      ∙ rw e refl
  | inr (l, e) ↦ ap buffer_of (get_elem?-update_self _ w.links m e) ∙ rw e refl
]

pub buffer-fan :
    (msg : ServerMessage) (m : ℕ) (w : Store) → buffer (fan msg m w) m ≡ pushed msg (buffer w m)
unfolding fan
buffer-fan msg m w =
    ap (λ links. buffer_of (get_elem? links m)) (links-send_current m msg (replay_push msg m w))
    ∙ buffer-push msg m w

pub buffer-fan_ne :
    (msg : ServerMessage) (link m : ℕ) (w : Store)
    → (link == m) ≡ false
    → buffer (fan msg link w) m ≡ buffer w m
unfolding fan replay_push
buffer-fan_ne msg link m w h =
    ap (λ links. buffer_of (get_elem? links m))
      (links-send_current link msg (replay_push msg link w))
    ∙ buffer-on_link_ne _ link m w h

buffer-fan_each_ne :
    (msg : ServerMessage) (links : List ℕ) (m : ℕ) (w : Store)
    → mem m links ≡ false
    → buffer (fan_each msg links w) m ≡ buffer w m
unfolding fan_each
buffer-fan_each_ne msg [] m w h = refl
buffer-fan_each_ne msg (l ∷ ls) m w h =
    buffer-fan_each_ne msg ls m (fan msg l w) (ground arith)
    ∙ buffer-fan_ne msg l m w (ground arith)

-- Each seat's buffer gets a message to all once.
pub buffer-fan_each :
    (msg : ServerMessage) (links : List ℕ) (j m : ℕ) (w : Store)
    → IsNodup links
    → get_elem? links j ≡ some m
    → buffer (fan_each msg links w) m ≡ pushed msg (buffer w m)
unfolding fan_each
buffer-fan_each msg [] j m w d h = absurd (ground arith)
buffer-fan_each msg (l ∷ ls) zero m w d h =
    let same : l ≡ m = ground arith in
    buffer-fan_each_ne msg ls m (fan msg l w) (rw (sym same) d.0) ∙ rw same (buffer-fan msg m w)
buffer-fan_each msg (l ∷ ls) (suc j) m w d h =
    let there = get_elem?-mem m ls j h in
    buffer-fan_each msg ls j m (fan msg l w) d.1 h
    ∙ ap (pushed msg) (buffer-fan_ne msg l m w (not_mem-ne l m ls d.0 there))

-- Starting the hand empties each seat's buffer.
buffer-begin_ne :
    (hand_id : ℕ) (links : List ℕ) (m : ℕ) (w : Store)
    → mem m links ≡ false
    → buffer (begin_each hand_id links w) m ≡ buffer w m
unfolding begin_each replay_begin
buffer-begin_ne h [] m w d = refl
buffer-begin_ne h (l ∷ ls) m w d =
    buffer-begin_ne h ls m (replay_begin h l w) (ground arith)
    ∙ buffer-on_link_ne _ l m w (ground arith)

buffer-begin :
    (hand_id m : ℕ) (w : Store)
    → is_some (get_elem? w.links m) ≡ true
    → buffer (replay_begin hand_id m w) m ≡ record { hand_id = some hand_id; events = [] }
unfolding replay_begin
buffer-begin h m w k = elim (Option-cases (get_elem? w.links m)) [
  | inl e ↦ absurd (ground arith)
  | inr (l, e) ↦ ap buffer_of (get_elem?-update_self (begun h) w.links m e)
]

begin-is_some :
    (hand_id link m : ℕ) (w : Store)
    → is_some (get_elem? w.links m) ≡ true
    → is_some (get_elem? (replay_begin hand_id link w).links m) ≡ true
unfolding replay_begin
begin-is_some h link m w k =
    get_elem?-update_keeps (λ o. is_some o ≡ true) (begun h) w.links link m (λ _ _ _. refl) k

pub buffer-begin_each :
    (hand_id : ℕ) (links : List ℕ) (j m : ℕ) (w : Store)
    → IsNodup links
    → get_elem? links j ≡ some m
    → is_some (get_elem? w.links m) ≡ true
    → buffer (begin_each hand_id links w) m ≡ record { hand_id = some hand_id; events = [] }
unfolding begin_each
buffer-begin_each h [] j m w d g k = absurd (ground arith)
buffer-begin_each h (l ∷ ls) zero m w d g k =
    let same : l ≡ m = ground arith in
    buffer-begin_ne h ls m (replay_begin h l w) (rw (sym same) d.0) ∙ rw same (buffer-begin h m w k)
buffer-begin_each h (l ∷ ls) (suc j) m w d g k =
    buffer-begin_each h ls j m (replay_begin h l w) d.1 g (begin-is_some h l m w k)

-- Ending it leaves them empty.
buffer-seal_keeps :
    (links : List ℕ) (m : ℕ) (w : Store)
    → buffer w m ≡ record { hand_id = none; events = [] }
    → buffer (seal_each links w) m ≡ record { hand_id = none; events = [] }
unfolding seal_each replay_end
buffer-seal_keeps [] m w h = h
buffer-seal_keeps (l ∷ ls) m w h = buffer-seal_keeps ls m (replay_end l w) (
    get_elem?-update_keeps (λ o. buffer_of o ≡ record { hand_id = none; events = [] }) sealed
      w.links l m (λ _ _ _. refl) h)

buffer-seal :
    (m : ℕ) (w : Store) → buffer (replay_end m w) m ≡ record { hand_id = none; events = [] }
unfolding replay_end
buffer-seal m w = elim (Option-cases (get_elem? w.links m)) [
  | inl e ↦
      get_elem?-update_keeps (λ o. buffer_of o ≡ record { hand_id = none; events = [] }) sealed
        w.links m m (λ _ _ _. refl) (ap buffer_of e)
  | inr (l, e) ↦ ap buffer_of (get_elem?-update_self sealed w.links m e)
]

pub buffer-seal_each :
    (links : List ℕ) (j m : ℕ) (w : Store)
    → get_elem? links j ≡ some m
    → buffer (seal_each links w) m ≡ record { hand_id = none; events = [] }
unfolding seal_each
buffer-seal_each [] j m w h = absurd (ground arith)
buffer-seal_each (l ∷ ls) zero m w h =
    let same : l ≡ m = ground arith in
    buffer-seal_keeps ls m (replay_end l w) (rw same (buffer-seal m w))
buffer-seal_each (l ∷ ls) (suc j) m w h = buffer-seal_each ls j m (replay_end l w) h
