-- ===== src/Track/Analysis.antt =====
-- crates/bvault-core/src/track.rs: what is known of one track, and the type of its file.
use bvault_app.Prelude.{ℕ, Option, List}
use bvault_app.Text.{Text}
use bvault_app.Track.{Key, BeatGrid, CuePoint, Waveform}

pub data FileType : Type 0 where
  unknown mp3 m4a flac wav aiff : FileType

-- `file_type as u16`
unfoldable pub file_type_code : FileType → ℕ
file_type_code unknown = 0x00
file_type_code mp3 = 0x01
file_type_code m4a = 0x04
file_type_code flac = 0x05
file_type_code wav = 0x0B
file_type_code aiff = 0x0C

-- `F` stands for `f64`.
pub record TrackAnalysis (F : Type 0) : Type 0 where
  pub id : ℕ
  pub file_path : Text
  pub title : Text
  pub artist : Text
  pub album : Option Text
  pub genre : Option Text
  pub label : Option Text
  pub duration_secs : F
  pub sample_rate : ℕ
  pub bit_depth : ℕ
  pub bitrate : ℕ
  pub bpm : F
  pub key : Option Key
  pub beat_grid : BeatGrid F
  pub waveform : Waveform
  pub cue_points : List (CuePoint F)
  pub file_size : ℕ
  pub file_hash : ℕ
  pub year : Option ℕ
  pub comment : Option Text
  pub track_number : Option ℕ
  pub file_type : FileType
