-- ===== src/Lib.antt =====
-- A model of the native library of NEk0, a client for voice servers on Android: the crate in
-- native/, without the vendored library of the protocol (native/local_tsclientlib), whose answers
-- are arguments of the model.
--
-- The program has three parts that run side by side. Dart calls the `ts_` functions of
-- native/src/api.rs; they read the shared state of native/src/lib.rs, or queue a `Command`. The
-- event loop of a connection (`do_connect`, `event_loop`) takes the commands, sends requests to the
-- server, and handles what the server sends; it answers Dart by events, which `ts_poll_events`
-- hands over. The audio callback takes one frame of each client out of its jitter buffer every 20
-- milliseconds. What is spawned (the end of a listing, the teardown of the output stream, the
-- transfer workers) runs later, as a step of its own.
--
-- Which file models which part:
--   Common        lists, tables, text and numbers, in the words of Rust's library
--   Model         the data types and statics of native/src/lib.rs; `World` is all of them
--   RemotePath    `normalize_remote_path`, `valid_remote_path`, `remote_basename`,
--                 `parse_return_code`
--   Sound         the queue of sounds, and the deferred teardown of the output stream
--   Calls         the `ts_` functions: Queue and Requests for those that queue one command,
--                 Transfers for the `ts_ft_` functions, Sounds for the `ts_*_sfx` functions,
--                 Session for the others; Connect is `do_connect`
--   EventLoop     `event_loop`: Moderation, Permissions, Files and Voice handle the commands,
--                 Dispatch is the top of an iteration, Ending holds the four ends, Panicked is the
--                 task that caught a panic
--   Book          the batches of the library's book: Refresh is `refresh_from_book`, Trigger is
--                 `maybe_trigger_sfx`, Events the arm `StreamItem::BookEvents`
--   Items         the other arms of `handle_control_item`: Listing, Transfer, Answer, Message,
--                 Interruption
--   Stream        Item is `handle_event_item` and `handle_control_item`, Poll the second half of an
--                 iteration, Loop the iterations one after the other
--   Workers       `spawn_download_worker` and `spawn_upload_worker`
--   Mixer         the callback of the output stream: Frame and Sounds mix, Callback copies out,
--                 Stats counts
--   Maintenance   the ticks of `spawn_maintenance_task`
--   Wav           `parse_wav_pcm`, and in Builtin `SFX_BUILTIN`; Calls/Sounds models the calls that
--                 use them
--   Panic         `install_panic_hook`
--   Jitter        `unwrap_seq`, `decode_to_client_buffer`, and the frame that the callback takes
-- The modules below these that are not named here hold proofs and, as Examples, tests and the
-- theorems at an input.
--
-- State is passed on explicitly: an operation is a function on `World`, and returns its result
-- beside the new state. A mutex or an atomic is a plain field, since each critical section is one
-- update. A `DashMap` or `HashMap` is an association list with one entry for a key; the order of
-- its entries stands for the order in which the source walks it. An `Instant` is a number of
-- milliseconds. An `f32` is its bit pattern, and its arithmetic an argument (`F32Ops`). Numbers
-- wrap around where the source's do, written out as a remainder. Log lines on standard error are
-- left out, but for the report on a built-in sample and the line of the statistics; the diagnostic
-- events to Dart are not.
--
-- Bounds and fuel: the loop over the microphone samples runs on as much fuel as samples wait,
-- and takes 960 of them in a round; the walk over the chunks of a WAV file on as much as the file
-- has bytes, and takes eight at least in a round, and gives nothing where the fuel runs out; the
-- loop that fills the output on as much as the samples that are asked for, and copies one at least
-- in a round. The decimal digits of a number are limited to twenty, which hold every u64.
--
-- A request counts as sent (`sent`) when it is handed to the connection library, whatever the library
-- answers. The commands that an iteration takes are an argument of it, a list with what the library
-- answers to each; that they leave the queue is not modelled.
--
-- What runs beside the modelled thread is an argument where it matters: a worker takes the steps
-- that other threads take on the transfers before each of its rounds, the cleanup what they do
-- between its two looks. The rounds of a worker, the polls of an iteration and the iterations of the
-- loop are lists; where a list is at its end the thread still runs. The items of one iteration are
-- handled with one book and one time, since the stream is not polled meanwhile.
--
-- Not modelled: the panic that `handle_control_item` catches, since no modelled handler panics; the
-- start of the runtime; the glue to Android. The audio callback is not interleaved with the event
-- loop: each call of it, like each packet, is one step.
pub mod Common
pub mod Model
pub mod RemotePath
pub mod Sound
pub mod Book
pub mod Calls
pub mod EventLoop
pub mod Jitter
pub mod Items
pub mod Stream
pub mod Workers
pub mod Mixer
pub mod Maintenance
pub mod Wav
pub mod Panic
