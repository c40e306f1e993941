-- ===== src/Items/Interruption.antt =====
-- `StreamItem::DisconnectedTemporarily`: the library will reconnect by itself.
use nek.Common.{false, some, List, [], ◌∷◌, ◌++◌, map}
use nek.Common.Text.{Text, lit}
use nek.Model.{World, perm_op, error, push_event}
use nek.Sound.{push_sfx}
use nek.Sound.Kind.{connection_lost}

-- Fails each token of a permission command.
unfoldable pub fail_tokens : List Text → World → World
fail_tokens [] w = w
fail_tokens (t ∷ ts) w =
    fail_tokens ts (push_event (perm_op t false (some (lit "connection lost"))) w)

-- `reason` is what `{:?}` shows of the library's reason.
unfoldable pub on_disconnected_temporarily : Text → World → World
unfolding fail_tokens push_sfx
on_disconnected_temporarily reason w = push_event (error (lit "Temp disconnected: " ++ reason)) (
    push_sfx connection_lost (
      fail_tokens (map (λ e. e.1) w.perm_ops)
        (record w { sfx_armed = false; ft_lists = []; perm_ops = [] })))
