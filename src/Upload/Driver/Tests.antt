-- ===== src/Upload/Driver/Tests.antt =====
-- An upload to /srv/new, from its request to its commit.
use qftp.Prelude.{
  ◌==◌, Bytes, bytes, true, false, none, some, [], ◌∷◌, length, take, length-take, leb, nat_eq,
  list_eq, if◌then◌else◌, lookup, ok, ◌≡◌, ◌≢◌, inl, refl, arith,
}
use qftp.Protocol.Codes.{identity}
use qftp.Protocol.Messages.{ok_response}
use qftp.Paths.{
  FilePath, IoError, kind_not_found, Stat, found, failed, Metadata, directory_file, Lstat, parent,
  push, file_name,
}
use qftp.Paths.Walk.{resolve_parent}
use qftp.Server.Plan.{PutRequest}
use qftp.Upload.Claims.{temp_path_for}
use qftp.Upload.Decoder.{Zstd, IsZstd, ZstdDecoder, push as push_bytes}
use qftp.Upload.Decoder.Bounded.{push-Ends, Ends}
use qftp.Upload.Driver.{PutError, identity_body, Upload, World, chunk, blocked, Env}
use qftp.Upload.Driver.Drive.{drive_put}
use qftp.Upload.Driver.Sound.{IsOpen}
use qftp.Upload.Driver.Committed.{drive_put-IsDriven, IsDriven}
use qftp.Upload.Driver.Start.{StartEnv, start_put}
use qftp.Upload.Driver.Start.Begun.{temp_path_for-ne}
use qftp.Upload.Driver.Start.Served.{start_put-IsSettled, IsSettled}

-- A decoder that copies: the frame ends with the input.
abbrev copying : Zstd (Unit {0})
copying = record {
  fresh = some tt;
  run = λ input capacity s. (
    some (record {
      consumed = length (take capacity input);
      written = take capacity input;
      hint = if leb (length input) capacity then 0 else 1;
    }),
    tt,
  );
}

copying-IsZstd : IsZstd copying
copying-IsZstd = record {
  reads = λ input capacity s r h. ground (arith, h, length-take capacity input);
  writes = λ input capacity s r h. ground (arith, h, length-take capacity input);
}

abbrev decoder : ZstdDecoder (Unit {0})
decoder = record {
  inner = tt;
  pending = [];
  decoded = 0;
  max_plaintext = 4;
  frame_complete = false;
}

-- five bytes, of which four may be decoded
push-Ends_example : Ends copying copying-IsZstd decoder (push_bytes copying (bytes "abcde") decoder)
push-Ends_example =
    push-Ends copying copying-IsZstd (bytes "abcde") decoder (omega arith, omega arith)

-- a hash that adds nothing: the last bytes
abbrev hash_of : Bytes → Bytes
hash_of content = take 3 content

abbrev no_text : PutError → Bytes
no_text e = []

abbrev srv : FilePath
srv = bytes "srv" ∷ []

abbrev directory : Metadata
directory = record {
  kind = directory_file;
  len = 0;
  modified = 0;
  mtime_nanos = 0;
  uid = 0;
  gid = 0;
  mode = 0;
}

-- the only directory
abbrev only_srv : Lstat
only_srv p =
    if p == srv then found directory else failed (record { kind = kind_not_found; text = [] })

abbrev destination : FilePath
destination = push srv (bytes "new")

abbrev env : Env
env = record {
  read = ok 8;
  buffer_len = 8;
  write = λ n. none;
  flush = none;
  rename = none;
  lstat = only_srv;
}

abbrev senv : StartEnv
senv = record {
  lstat = only_srv;
  opens = none;
  metadata = true;
  set_len = none;
  set_permissions = none;
  seek = none;
  reopen = none;
}

abbrev world : World
world = record {
  files = (destination, bytes "old") ∷ [];
  modes = [];
  usage = record { used_bytes = 3; in_flight_bytes = 0; quota_bytes = some 100 };
  bytes_received = 0;
  uploads_completed = 0;
}

abbrev request : PutRequest
request = record {
  path = bytes "new";
  size = 5;
  mode = 0;
  offset = 0;
  expected_checksum = some (bytes "hel");
  no_clobber = false;
  checksum_trailer = false;
  encoding = identity;
  plaintext_size = 5;
  leftover = bytes "he";
}

destination-ne : temp_path_for destination ≢ destination
unfolding file_name
destination-ne = temp_path_for-ne destination (bytes "new") refl

request_path : resolve_parent only_srv srv srv (bytes "new") ≡ ok destination
unfolding resolve_parent qftp.Paths.components qftp.Paths.Walk.walk_component qftp.Paths.starts_with
    parent
request_path = refl

start_put-IsSettled_example : IsSettled copying hash_of no_text destination (some (bytes "old")) 5 (
    start_put copying hash_of no_text senv env
      (chunk (bytes "llo") true ∷ [])
      srv
      srv
      request
      (record { claims = []; world = world }))
unfolding lookup
start_put-IsSettled_example =
    start_put-IsSettled copying hash_of no_text senv env (chunk (bytes "llo") true ∷ []) request srv
      srv destination (record { claims = []; world = world }) request_path

-- The upload after its first two bytes
abbrev going : Upload (Unit {0})
going = record {
  final_path = destination;
  temp_path = temp_path_for destination;
  remaining = 3;
  mode = 0;
  completed = false;
  no_clobber = false;
  hashed = bytes "he";
  recv_encoding = identity_body;
  expected_checksum = some (bytes "hel");
  trailer_buf = none;
  reserved_bytes = 5;
  prior_bytes = 0;
  rehash = none;
  home = srv;
}

abbrev going_world : World
going_world = record world {
  files = (destination, bytes "old") ∷ (temp_path_for destination, bytes "he") ∷ [];
}

going-IsOpen : IsOpen hash_of destination (some (bytes "old")) 5 (going, going_world)
unfolding lookup temp_path_for
going-IsOpen = inl (record {
  keeps = record { place = refl; apart = destination-ne; kept = refl };
  prefix_hashed = refl;
  temp = refl;
  size = refl;
})

drive_put-IsDriven_example :
    IsDriven copying hash_of no_text env destination (some (bytes "old")) 5 (
      drive_put copying hash_of no_text env
        (blocked ∷ chunk (bytes "llo") true ∷ [])
        (going, going_world))
drive_put-IsDriven_example =
    drive_put-IsDriven copying hash_of no_text env destination (some (bytes "old")) 5
      (blocked ∷ chunk (bytes "llo") true ∷ []) (going, going_world) going-IsOpen

drive_put_commits :
    (drive_put copying hash_of no_text env (chunk (bytes "llo") true ∷ []) (going, going_world)).0
    ≡ some ok_response
unfolding drive_put qftp.Paths.Recheck.recheck_ancestor
drive_put_commits = refl
