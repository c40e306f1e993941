-- ===== src/Stream/Endings.antt =====
-- The transfers over all items of the stream.
use nek.Common.{ℕ, ◌≡◌, refl, ◌∙◌, false, List, [], ◌∷◌, ◌++◌, map}
use nek.Common.Text.{Text, lit}
use nek.Model.{World, error}
use nek.Sound.{push_sfx}
use nek.Sound.Kind.{connection_lost}
use nek.Items.Interruption.{fail_tokens, on_disconnected_temporarily}
use nek.Items.Done.{due_endings}
use nek.Items.Done.Handlers.{
  due-handle_file_download, due-handle_file_upload, due-on_filetransfer_failed,
}
use nek.Stream.Item.{
  StreamItem, Scene, handle_control_item, handle_event_item, handle_items, book_events,
  message_event, message_result, file_download, file_upload, filetransfer_failed,
  disconnected_temporarily,
}
use nek.Stream.Due.{
  due-on_book_events, due-handle_message, due-on_message_result, due-fail_tokens, due-push_event,
}

module _ (id : ℕ) where
  due-on_disconnected_temporarily :
      (r : Text) (w : World) → due_endings id (on_disconnected_temporarily r w) ≡ due_endings id w
  unfolding on_disconnected_temporarily push_sfx due_endings
  due-on_disconnected_temporarily r w =
      let tokens = map (λ e. e.1) w.perm_ops in
      let v : World = record w { sfx_armed = false; ft_lists = []; perm_ops = [] } in
      due-push_event id (error (lit "Temp disconnected: " ++ r))
        (push_sfx connection_lost (fail_tokens tokens v)) refl
      ∙ due-fail_tokens id tokens v

  due-handle_control_item :
      (s : Scene) (item : StreamItem) (w : World)
      → due_endings id (handle_control_item s item w) ≡ due_endings id w
  unfolding handle_control_item
  due-handle_control_item s (book_events events) w =
      due-on_book_events id s.gains s.now s.book events w
  due-handle_control_item s (message_event m) w = due-handle_message id s.now m w
  due-handle_control_item s (message_result rc res) w = due-on_message_result id rc res w
  due-handle_control_item s (filetransfer_failed ftid status) w =
      due-on_filetransfer_failed id ftid status w
  due-handle_control_item s (disconnected_temporarily r) w = due-on_disconnected_temporarily r w
  due-handle_control_item s _ w = refl

  due-handle_event_item :
      (s : Scene) (item : StreamItem) (w : World)
      → due_endings id (handle_event_item s item w) ≡ due_endings id w
  unfolding handle_event_item
  due-handle_event_item s (file_download ftid size stream) w =
      due-handle_file_download id s.now ftid size stream w
  due-handle_event_item s (file_upload ftid stream) w = due-handle_file_upload id ftid stream w
  due-handle_event_item s item w = due-handle_control_item s item w

-- Whatever items the event loop handles, of all kinds and in any order, the endings of a transfer
-- that were told and those to come stay the same in number: no item tells of the end of a task
-- that goes on, or takes a task away without telling.
pub due_endings-handle_items :
    (id : ℕ) (s : Scene) (items : List StreamItem) (w : World)
    → due_endings id (handle_items s items w) ≡ due_endings id w
unfolding handle_items
due_endings-handle_items id s [] w = refl
due_endings-handle_items id s (item ∷ items) w =
    due_endings-handle_items id s items (handle_event_item s item w)
    ∙ due-handle_event_item id s item w
