-- ===== src/Lib.antt =====
-- Klip: a model of the screen recorder's own logic and the theorems about it.
--
-- Klip shows a window (app), whose controls set the choices of a recorder (recorder). A start goes
-- through the start flow (app/private/start_flow.cpp): it prepares the recorder, gets the window
-- out of shot, asks for a region where one is recorded, and makes the recorder ask its session for
-- the capture. The session asks the desktop's portal (capture) and answers later; from then on the
-- encoder (encode) writes the file, and the recorder's ticks show how far it is.
--
-- Base: tests on native numbers, lists, byte strings, tables that are searched for their last match,
--   and integers for decibels.
-- Bus/FileUri: src/bus/private/file_uri.cpp, `ToFileUri` and `ToLocalPath`, over lists of bytes.
-- Encode/Format, Encode/Quality: src/encode/public/encode/format.hpp and quality.hpp, the tables of
--   codecs, containers and qualities and their lookups, which return the last match as the loops do.
--   The bit rate estimate is computed modulo 2 ^ 64.
-- Encode/Capabilities: src/encode/private/capabilities.cpp, the search for the render node. What
--   `access` and libavcodec answer of each node is the argument `card`.
-- Encode/Region: src/encode/private/encoder.cpp, `ResolveRegion` with its 32-bit sums, and where
--   `SubmitMapped` starts to read a frame.
-- Encode/Video: src/encode/private/encoder.cpp, the timestamps that `SendToEncoder` gives and the
--   lengths that `HoldVideoPacket` and `WriteHeldPacket` give. `sent` and `written` record the calls
--   of libav; `av_rescale_q` is an argument, of which a theorem asks only that a nominal frame has a
--   length in the file's units.
-- Encode/Audio: src/encode/private/encoder.cpp, `LevelSources`, `EncodeMixedFrame`,
--   `EncodeAudioFrames` and `FinishAudio`, of which each fifo is kept as its number of samples. The
--   loop of `EncodeAudioFrames` has fuel: the samples of a fifo are enough.
--   Encode/Audio/Submit has `SubmitAudio`; it counts neither the gaps nor keeps the last drift, which
--   are only logged.
-- Recorder: src/recorder/private/recorder.cpp, all of CRecorder. Recorder/State has its members,
--   the calls that it makes of its parts (`calls`, in order) and `World`, what its parts, the clock
--   and the file system answer in one call. Recorder/Choices has the setters and the device lists,
--   Monitoring the level previews, Recording a recording from `PrepareRecording` to `StopRecording`,
--   Update what happens after a wake or a deadline, Start `Initialize`, Hints and Format the texts,
--   and Steps one operation for each public call. The closure that waits in the session is an
--   element of `pending`; one reading of the clock serves a call.
-- Recorder/Session: src/recorder/private/session.cpp, CSession: a start from its request to the
--   portal's answer, the audio sources, the encoder's start with the first frame, and `Stop`.
--   Recorder/Session/Ring has the four frame slots that pass between the PipeWire thread and the
--   encoder's thread. An event has one call of a queue or of the semaphore, so that every order of
--   these calls is a sequence of events: `OnFrame` has three, taking a slot, queueing it and releasing
--   the semaphore. What a thread does on its own slot stands with the call beside it; so does the flag
--   that asks the encoder's thread to stop, stored with the release behind it and loaded with the call
--   of the queue that fails before. `accepted` and `submitted` record the frames handed on by
--   `OnFrame` and to `SubmitFrame`.
--   Recorder/Levels has CLevelBallistics of level_ballistics.cpp, over comparisons of floats and a fall
--   by decibels, which are arguments, and Recorder/Labels the texts of labels.cpp.
-- App/StartFlow: src/app/private/start_flow.cpp, all of CStartFlow, with the recorder and the window
--   that it points to. An assertion of the recorder on its state that fails is `none`.
--   `flow_event` is what the application's loop may do between two waits.
-- Json: what src/json and src/config use of nlohmann's JSON, a record of operations on values, with
--   a parser and a printer, and the laws that are documented of them; a number that is not negative
--   is parsed as an unsigned one, and a text that is not UTF-8 cannot be printed as it is. Of an
--   array or a float it has the text that is printed, which Klip neither reads nor writes.
-- Json/Files: src/json/private/files.cpp, `ReadFile` and `WriteFileAtomically`, with one answer of the
--   system for each call. The loops of `read` and `write` are recursive on the list of answers; as
--   many answers as there are bytes, and one more for `read`, are enough, interrupted calls aside.
-- Config: src/config/private. Config/Document and Names have the document and the names, Reading the
--   readers of settings_json.cpp up to `ReadSettingsJson`, and Writing `WriteSettingsJson`. Schema
--   describes a file by the paths of its values and compares the reader with that; Writing's
--   children say what stands at each path after a write. Config/KlipConf has klip_conf.cpp, byte by
--   byte. Config/Store has CSettingsStore of settings_store.cpp over a disk of config.json,
--   Klip.conf and config.json.bad; what the file system answers of a change is an argument, and an
--   assertion that fails, like a text that cannot be printed, ends the call with `none`.
--   Config/XdgPaths has xdg_paths.cpp and `Initialize` of the store; a path is its bytes, and `/` of
--   the standard library is written out for POSIX.
-- Capture: the few types and `KeepsGrant` of src/capture that the recorder uses.
-- Tests: concrete recorders and worlds, on which the theorems are applied.
--
-- Numbers are natural numbers; a time is a number of nanoseconds and the clock is monotone, so a
-- difference of two times is never negative. Where an argument has a width in the source that
-- matters to a result, the wrap is written out. The loops over the codecs,
-- sources, nodes and bytes are structural. `run_encoder` takes one element of a list for
-- each step of the encoder's thread; three for each filled slot and three more are enough for the thread to end once it is stopped.
--
-- Not modelled: floats (a gain is kept in decibels, a rate as its bytes and seconds), the texts of
-- the notices (kept as names), logging, SDL, ImGui, PipeWire, D-Bus, libav and the file system.
-- The recorder sees its session through the session's answers. The samples of the sound and the
-- tray are not modelled.
pub mod Base
pub mod Bus
pub mod Encode
pub mod Capture
pub mod Json
pub mod Config
pub mod Recorder
pub mod App
pub mod Tests
