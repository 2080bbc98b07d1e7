-- ===== src/Server/Sink/Links.antt =====
-- crates/poker-server/src/table.rs, `BroadcastSink`: events leave every link with its connection.
use vibe_poker.Base.{ℕ, List, [], ◌∷◌, Option, none, some, get_elem?, ◌+◌, ◌≡◌, ◌∙◌, refl, ap}
use vibe_poker.Game.Event.{
  EngineEvent, HandResult, hand_started, hole_cards_dealt, board_dealt, action_taken, player_all_in,
  hand_ended,
}
use vibe_poker.Net.Protocol.{ServerMessage}
use vibe_poker.Server.Store.{
  Store, inner_of, current, replay_begin, replay_end, replay_push, pushed,
}
use vibe_poker.Server.Store.Mail.{current-on_link, links-send_current}
use vibe_poker.Server.Sink.{
  BroadcastSink, fan, fan_each, broadcast_all, send_at, send_to, fan_end, begin_each, seal_each,
  noted, spread,
}

pub current-fan :
    (msg : ServerMessage) (link n : ℕ) (w : Store) → current (fan msg link w) n ≡ current w n
unfolding fan replay_push
current-fan msg link n w =
    ap (λ links. inner_of (get_elem? links n))
      (links-send_current link msg (replay_push msg link w))
    ∙ current-on_link link n (λ l. record l { replay = pushed msg l.replay }) w (λ l. refl)

current-fan_each :
    (msg : ServerMessage) (links : List ℕ) (n : ℕ) (w : Store)
    → current (fan_each msg links w) n ≡ current w n
unfolding fan_each
current-fan_each msg [] n w = refl
current-fan_each msg (l ∷ ls) n w = current-fan_each msg ls n (fan msg l w) ∙ current-fan msg l n w

current-fan_end :
    (k : BroadcastSink) (hand_id : ℕ) (r : HandResult) (i : ℕ) (links : List ℕ) (n : ℕ) (w : Store)
    → current (fan_end k hand_id r i links w) n ≡ current w n
unfolding fan_end
current-fan_end k h r i [] n w = refl
current-fan_end k h r i (l ∷ ls) n w = current-fan_end k h r (i + 1) ls n _ ∙ current-fan _ l n w

current-begin_each :
    (hand_id : ℕ) (links : List ℕ) (n : ℕ) (w : Store)
    → current (begin_each hand_id links w) n ≡ current w n
unfolding begin_each replay_begin
current-begin_each h [] n w = refl
current-begin_each h (l ∷ ls) n w =
    current-begin_each h ls n (replay_begin h l w) ∙ current-on_link l n _ w (λ _. refl)

current-seal_each :
    (links : List ℕ) (n : ℕ) (w : Store) → current (seal_each links w) n ≡ current w n
unfolding seal_each replay_end
current-seal_each [] n w = refl
current-seal_each (l ∷ ls) n w =
    current-seal_each ls n (replay_end l w) ∙ current-on_link l n _ w (λ _. refl)

current-send_at :
    (o : Option ℕ) (msg : ServerMessage) (n : ℕ) (w : Store)
    → current (send_at o msg w) n ≡ current w n
unfolding send_at
current-send_at none msg n w = refl
current-send_at (some l) msg n w = current-fan msg l n w

pub current-spread :
    (e : EngineEvent) (k : BroadcastSink) (n : ℕ) (w : Store)
    → current (spread e k w) n ≡ current w n
unfolding spread broadcast_all send_to
current-spread (hand_started i d s) k n w =
    current-fan_each _ k.links n _ ∙ current-begin_each i k.links n w
current-spread (hole_cards_dealt seat cards) k n w = current-send_at (get_elem? k.links seat) _ n w
current-spread (board_dealt _ _) k n w = current-fan_each _ k.links n w
current-spread (action_taken _ _ _) k n w = current-fan_each _ k.links n w
current-spread (player_all_in _ _) k n w = current-fan_each _ k.links n w
current-spread (hand_ended i r) k n w =
    current-seal_each k.links n _ ∙ current-fan_end k i r 0 k.links n w

-- A sink keeps its table and its links.
pub noted-same :
    (e : EngineEvent) (k : BroadcastSink)
    → ((noted e k).links ≡ k.links) × ((noted e k).table_id ≡ k.table_id)
unfolding noted
noted-same (hand_started _ _ _) k = (refl, refl)
noted-same (hole_cards_dealt _ _) k = (refl, refl)
noted-same (board_dealt _ _) k = (refl, refl)
noted-same (action_taken _ _ _) k = (refl, refl)
noted-same (player_all_in _ _) k = (refl, refl)
noted-same (hand_ended _ _) k = (refl, refl)
