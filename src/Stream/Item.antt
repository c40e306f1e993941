-- ===== src/Stream/Item.antt =====
-- `handle_event_item` and `handle_control_item`: one item of the connection's stream.
use nek.Common.{ℕ, Option, List, [], ◌∷◌}
use nek.Common.Text.{Text}
use nek.Model.{World, TsFtEntry, TsError}
use nek.Book.Data.{Book, Event}
use nek.Book.Refresh.{GainOps}
use nek.Book.Events.{on_book_events}
use nek.Items.Answer.{Answer, on_message_result}
use nek.Items.Interruption.{on_disconnected_temporarily}
use nek.Items.Listing.{on_file_list, on_file_list_finished}
use nek.Items.Message.{TextPart, PermPart, on_text_message, on_client_perm_list, on_command_error}
use nek.Items.Transfer.{
  TransferStatus, handle_file_download, handle_file_upload, on_filetransfer_failed,
}

-- The messages that the code reads, by the parts that it reads of them.
pub data InMessage : Type 0 where
  file_list : Option Text → List TsFtEntry → InMessage
  file_list_finished : List (ℕ × Text) → InMessage
  text_messages : List TextPart → InMessage
  client_perm_list : List PermPart → InMessage
  command_errors : List TsError → InMessage
  other_message : InMessage

pub data StreamItem : Type 0 where
  -- the client, the number of the packet, its bytes
  audio : ℕ → ℕ → List ℕ → StreamItem
  book_events : List Event → StreamItem
  message_event : InMessage → StreamItem
  message_result : ℕ → Answer → StreamItem
  -- the transfer id, the size, the error that takes the socket
  file_download : ℕ → ℕ → Option Text → StreamItem
  file_upload : ℕ → Option Text → StreamItem
  filetransfer_failed : ℕ → TransferStatus → StreamItem
  disconnected_temporarily : Text → StreamItem
  other_item : StreamItem

-- What the items of one iteration are handled with: the time, and the book as it is then.
pub record Scene : Type 0 where
  pub gains : GainOps
  pub now : ℕ
  pub book : Option Book

unfoldable pub handle_message : ℕ → InMessage → World → World
unfolding on_file_list on_file_list_finished on_text_message on_client_perm_list on_command_error
handle_message now (file_list return_code rows) w = on_file_list return_code rows w
handle_message now (file_list_finished parts) w = on_file_list_finished parts w
handle_message now (text_messages parts) w = on_text_message parts w
handle_message now (client_perm_list parts) w = on_client_perm_list parts w
handle_message now (command_errors errors) w = on_command_error now errors w
handle_message now other_message w = w

unfoldable pub handle_control_item : Scene → StreamItem → World → World
unfolding on_book_events handle_message on_message_result on_filetransfer_failed
    on_disconnected_temporarily
handle_control_item s (book_events events) w = on_book_events s.gains s.now s.book events w
handle_control_item s (message_event m) w = handle_message s.now m w
handle_control_item s (message_result rc res) w = on_message_result rc res w
handle_control_item s (filetransfer_failed id status) w = on_filetransfer_failed id status w
handle_control_item s (disconnected_temporarily r) w = on_disconnected_temporarily r w
handle_control_item s _ w = w

unfoldable pub handle_event_item : Scene → StreamItem → World → World
unfolding handle_file_download handle_file_upload handle_control_item
handle_event_item s (file_download id size stream) w = handle_file_download s.now id size stream w
handle_event_item s (file_upload id stream) w = handle_file_upload id stream w
handle_event_item s item w = handle_control_item s item w

unfoldable pub handle_items : Scene → List StreamItem → World → World
unfolding handle_event_item
handle_items s [] w = w
handle_items s (item ∷ items) w = handle_items s items (handle_event_item s item w)
