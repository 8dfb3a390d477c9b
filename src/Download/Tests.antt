-- ===== src/Download/Tests.antt =====
-- A download of three bytes from the middle of a file, and the request for it.
use qftp.Prelude.{
  Bytes, bytes, true, false, none, some, [], ◌∷◌, take, ◌==◌, nat_eq, list_eq, if◌then◌else◌, ok,
  ◌≡◌, inl, refl, arith,
}
use qftp.Protocol.Messages.{GetFields}
use qftp.Paths.{FilePath, Metadata, FileKind, regular_file, directory_file, found, Lstat}
use qftp.Download.{takes, is_finished, Source, State, drive_one_sender}
use qftp.Download.Sending.{IsAtBody}
use qftp.Download.Delivered.{IsDelivered, drive_one_sender-IsDelivered}
use qftp.Download.Start.{GetEnv, start_get}
use qftp.Download.Start.Begun.{IsAnnounced, start_get-IsAnnounced}

abbrev source : Source
source = record {
  content = bytes "abcdef";
  read_fails = λ n. false;
  seek_fails = λ n. false;
  buffer_len = 2;
}

abbrev first_two : Bytes → Bytes
first_two content = take 2 content

-- The prefix of one byte was hashed, and the first byte of the range is sent.
abbrev under_way : State
under_way = (
  record {
    position = 2;
    total_size = 3;
    sent = 1;
    hashed = bytes "ab";
    trailer = none;
    trailer_offset = 0;
    finished = false;
    prefix_remaining = 0;
  },
  record { out = bytes "b"; fin = false; bytes_sent = 1; downloads_completed = 0 },
)

under_way-IsAtBody : IsAtBody first_two source 1 3 under_way
under_way-IsAtBody = record {
  unfinished = refl;
  no_trailer = refl;
  total = refl;
  place = refl;
  hashing = refl;
  within = omega arith;
  prefix_first = inl refl;
  gone = refl;
}

drive_one_sender-IsDelivered_example :
    IsDelivered first_two source 1 3
      (drive_one_sender first_two source (takes 9 ∷ takes 1 ∷ takes 9 ∷ takes 0 ∷ []) under_way)
drive_one_sender-IsDelivered_example =
    drive_one_sender-IsDelivered first_two source 1 3 (takes 9 ∷ takes 1 ∷ takes 9 ∷ takes 0 ∷ [])
      under_way (inl under_way-IsAtBody)

delivered :
    (drive_one_sender first_two source (takes 9 ∷ takes 1 ∷ takes 9 ∷ takes 0 ∷ []) under_way).0
    ≡ is_finished
unfolding drive_one_sender
delivered = refl

abbrev srv : FilePath
srv = bytes "srv" ∷ []

abbrev meta_of : FileKind → Metadata
meta_of kind = record {
  kind = kind;
  len = 6;
  modified = 0;
  mtime_nanos = 0;
  uid = 0;
  gid = 0;
  mode = 0;
}

abbrev stat_at : Lstat
stat_at p = found (meta_of (if p == srv then directory_file else regular_file))

abbrev env : GetEnv
env = record {
  resolving = stat_at;
  rechecking = stat_at;
  follows = λ p. true;
  open_get_file = λ p. ok (meta_of regular_file);
  encoder_error = none;
  decimal = λ n. [];
}

abbrev request : GetFields
request = record { path = bytes "f"; offset = 1; len = some 3; accept_encoding = [] }

start_get-IsAnnounced_example :
    IsAnnounced first_two source env request srv srv (start_get env srv srv request)
start_get-IsAnnounced_example = start_get-IsAnnounced first_two source env request srv srv
