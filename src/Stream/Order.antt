-- ===== src/Stream/Order.antt =====
-- In which order the items of one iteration take effect.
use nek.Common.{ℕ, ◌≡◌, refl, sym, ap, ◌∙◌, false, List, [], ◌∷◌, ◌++◌, map}
use nek.Model.{World}
use nek.Jitter.Receive.{DecoderOps}
use nek.Stream.Item.{StreamItem, Scene, handle_event_item, handle_items}
use nek.Stream.Poll.{
  Polls, dry, item, decode, put_off, drain, drain_raw_incoming, finish_iteration, after_first,
  poll_events,
}

-- The audio of the items, decoded as it comes.
abbrev pub decode_all : DecoderOps → ℕ → List StreamItem → World → World
decode_all d now [] w = w
decode_all d now (i ∷ is) w = decode_all d now is (decode d now i w)

-- The items that are no audio, in the order in which they came.
abbrev pub put_off_all : List StreamItem → List StreamItem
put_off_all [] = []
put_off_all (i ∷ is) = put_off i ++ put_off_all is

drain_items :
    (d : DecoderOps) (now : ℕ) (is : List StreamItem) (w : World)
    → drain d now (map item is) w ≡ (decode_all d now is w, (put_off_all is, dry))
unfolding drain
drain_items d now [] w = refl
drain_items d now (i ∷ is) w =
    ap (λ r. (r.0, (put_off i ++ r.1.0, r.1.1))) (drain_items d now is (decode d now i w))

handle_items-append :
    (s : Scene) (xs ys : List StreamItem) (w : World)
    → handle_items s (xs ++ ys) w ≡ handle_items s ys (handle_items s xs w)
unfolding handle_items
handle_items-append s [] ys w = refl
handle_items-append s (x ∷ xs) ys w = handle_items-append s xs ys (handle_event_item s x w)

-- Items that come one after the other, and no raw lines.
abbrev pub polls_of : ℕ → Scene → StreamItem → List StreamItem → Polls
polls_of now s i is = record {
  poll_time = now;
  first = item i;
  rest = map item is;
  scene = s;
  raw = [];
}

-- When the first poll of an iteration gives an item, and the polls behind it give items until there
-- are no more, without an error, an end or a raw line, the audio is decoded in the order in which
-- it came, before any other item is handled; the others follow in the order in which they came, but
-- for the very first one, which is handled behind all of them. The iteration goes on.
pub poll_events_order :
    (d : DecoderOps) (g now : ℕ) (s : Scene) (i : StreamItem) (is : List StreamItem) (w : World)
    → poll_events d g (polls_of now s i is) w
      ≡ (handle_items s (put_off_all is ++ put_off i) (decode_all d now (i ∷ is) w), false)
unfolding poll_events after_first finish_iteration drain_raw_incoming
poll_events_order d g now s i is w =
    ap (finish_iteration g (polls_of now s i is) (put_off i))
      (drain_items d now is (decode d now i w))
    ∙ ap (λ v. (v, false))
        (sym (handle_items-append s (put_off_all is) (put_off i) (decode_all d now (i ∷ is) w)))
