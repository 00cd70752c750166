-- ===== src/Recorder/Requests.antt =====
-- src/recorder/private/recorder.cpp: what a start asks of the session.
use klip.Base.{◌≡◌, codes, ◌⊎◌, ◌++◌, if◌then◌else◌, ◌≤ℤ◌, ℤ, ◌&&◌, Bytes}
use klip.Capture.{no_device, AudioDevice}
use klip.Encode.Format.{Container, mp4, matroska, webm, container_carries_audio}
use klip.Recorder.Settings.{AudioSource, system, microphone, minimum_gain, maximum_gain}
use klip.Recorder.State.{Recorder, World, Request}
use klip.Recorder.Monitoring.{wants_audio, find_device}
use klip.Recorder.Recording.{to_folder}

-- The gain that the request has for each source.
abbrev pub requested_gain : Request → AudioSource → ℤ
requested_gain q system = q.system_gain
requested_gain q microphone = q.microphone_gain

abbrev pub requested_audio : Request → AudioSource → AudioDevice
requested_audio q system = q.system_audio
requested_audio q microphone = q.microphone

-- The device is that of the source where it is wanted and the container carries audio.
abbrev pub IsAudioOf : Request → Recorder → AudioSource → Type 0
IsAudioOf q r s = requested_audio q s ≡ (
    if container_carries_audio r.settings.container && wants_audio r s
    then find_device r s
    else no_device)

-- What a request takes over is the same in both recorders.
record Alike (r after : Recorder) : Type 0 where
  codec : after.settings.codec ≡ r.settings.codec
  container : after.settings.container ≡ r.settings.container
  audio : after.settings.audio ≡ r.settings.audio
  devices : after.devices ≡ r.devices
  current_path : after.current_path ≡ r.current_path
  region : after.region ≡ r.region

-- A gain within its limits.
abbrev pub IsBounded : ℤ → Type 0
IsBounded gain = (minimum_gain ≤ℤ gain) × (gain ≤ℤ maximum_gain)

-- What the names of the files of a container end in.
abbrev pub suffix_of : Container → Bytes
suffix_of mp4 = codes ".mp4"
suffix_of matroska = codes ".mkv"
suffix_of webm = codes ".webm"

-- A file of the directory, or of the current one where there is none, named for the time.
abbrev pub IsNamed : World → Recorder → Bytes → Type 0
IsNamed w r path =
    (front : Bytes) × ((front ≡ to_folder r.settings.directory)
      ⊎ (front ≡ to_folder r.settings.directory ++ codes "/"))
    × (path ≡ front ++ (codes "klip-" ++ (w.stamp ++ suffix_of r.settings.container)))
