-- ===== src/Recorder/Choices/Devices.antt =====
-- src/recorder/private/recorder.cpp: `RefreshAudioDevices` as devices come and go.
use klip.Base.{◌≡◌, ◌⊎◌, inl, inr, refl, true, List, [], ◌∷◌, Bytes, equal_self, if-cases, ◌∙◌}
use klip.Capture.{AudioDevice}
use klip.Recorder.Settings.{AudioSource, system, microphone, get}
use klip.Recorder.State.{Recorder, World}
use klip.Recorder.Monitoring.{choice}
use klip.Recorder.Choices.{
  lists_device, pick_device, wanted_name, refresh_device, refresh_audio_devices,
}

-- After a refresh each source has the device that its list and its wanted name give.
refresh_device_lem :
    (w : World) (r : Recorder) (s : AudioSource)
    → (choice (refresh_audio_devices w r) s).device ≡ pick_device (wanted_name r s) (get w.listed s)
unfolding refresh_audio_devices refresh_device
refresh_device_lem w r system = refl
refresh_device_lem w r microphone = refl

pick_device-listed :
    (name : Bytes) (devices : List AudioDevice)
    → ((devices ≡ []) × (pick_device name devices ≡ []))
      ⊎ (lists_device (pick_device name devices) devices ≡ true)
unfolding pick_device
pick_device-listed name [] = inl (refl, refl)
pick_device-listed name (d ∷ devices) = inr (
    if-cases (λ n. lists_device n (d ∷ devices) ≡ true) (lists_device name (d ∷ devices)) (λ h. h)
      (λ _. unfold lists_device in rw (equal_self d.node_name)))

-- After a refresh each source's device is one of those listed, or empty where none is; the lists
-- are those just read; and nothing is marked as changed by the user.
pub refresh_audio_devices-listed :
    (w : World) (r : Recorder) (s : AudioSource)
    → let after = refresh_audio_devices w r in
      (((get w.listed s ≡ []) × ((choice after s).device ≡ []))
        ⊎ (lists_device (choice after s).device (get w.listed s) ≡ true))
      × (after.devices ≡ w.listed)
      × (after.changes ≡ r.changes)
refresh_audio_devices-listed w r s = (
  rw (refresh_device_lem w r s) (pick_device-listed (wanted_name r s) (get w.listed s)),
  unfold refresh_audio_devices refresh_device in refl,
  unfold refresh_audio_devices refresh_device in refl,
)

pick_device-same :
    (name : Bytes) (devices : List AudioDevice)
    → lists_device name devices ≡ true
    → pick_device name devices ≡ name
unfolding pick_device
pick_device-same name [] h = unfold lists_device in absurd (cc h)
pick_device-same name (d ∷ devices) h = rw h

wanted_once_gone :
    (gone : World) (r : Recorder) (s : AudioSource)
    → get gone.listed s ≡ []
    → wanted_name (refresh_audio_devices gone r) s ≡ get r.written_devices s
unfolding refresh_audio_devices refresh_device wanted_name
wanted_once_gone gone r system e = rw e
wanted_once_gone gone r microphone e = rw e

-- A source whose list goes empty and fills again gets back the device last written down, if it is
-- listed again, whatever other devices are.
pub refresh_audio_devices_back :
    (gone back : World) (r : Recorder) (s : AudioSource)
    → get gone.listed s ≡ []
    → lists_device (get r.written_devices s) (get back.listed s) ≡ true
    → (choice (refresh_audio_devices back (refresh_audio_devices gone r)) s).device
      ≡ get r.written_devices s
refresh_audio_devices_back gone back r s e h =
    let emptied = refresh_audio_devices gone r in
    refresh_device_lem back emptied s
    ∙ (rw (wanted_once_gone gone r s e)
        (pick_device-same (get r.written_devices s) (get back.listed s) h))
