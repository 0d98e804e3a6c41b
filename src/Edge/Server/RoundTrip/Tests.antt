-- ===== src/Edge/Server/RoundTrip/Tests.antt =====
-- An upload and a download from S3 on a concrete node (edge/server/server_services.go).
use mathlib.Core.Option.{some-injective}
use sdcc_project.Edge.Utils.Text.{Text}
use sdcc_project.Base.{
  String, Option, List, ℕ, subst, ◌≡◌, refl, string_discrete, [], ◌∷◌, none, some, ok, arith,
}
use sdcc_project.Base.Int.{pos}
use sdcc_project.Base.Dict.{lookup}
use sdcc_project.Edge.Cache.{is_file_in_cache}
use sdcc_project.Edge.Peer.Lookup.{neighbours_file_lookup}
use sdcc_project.Edge.Peer.Requests.{add_request_in_cache}
use sdcc_project.Edge.Peer.Transfer.Complete.{bytes_sent}
use sdcc_project.Edge.S3.Upload.{bodies}
use sdcc_project.Edge.Server.Redirection.{chunks}
use sdcc_project.Edge.Server.Samples.{
  md, events, redirect, uploads, reads_body, peer, setting, bucket, test, self,
}
use sdcc_project.Edge.Server.LocalCache.{finish}
use sdcc_project.Edge.Server.Download.{Chunks, Surroundings, lookup_file_in_network, do_download}
use sdcc_project.Edge.Server.RoundTrip.{Serves, OnlyOnS3, do_upload-download}

abbrev around : Surroundings
around = record {
  max_size = pos 10;
  local_read = record {
    open_error = none;
    chunk_size = 2;
    capacity = 1;
    content = [];
    actions = finish ∷ [];
    read_error = none;
  };
  local_send = λ n. none;
  lookup_server = none;
  offers = [];
  bucket = bucket;
}

bucket-Serves : Serves bucket (1 ∷ 2 ∷ 3 ∷ [])
bucket-Serves = record {
  grows = λ c n. omega arith;
  no_notices = refl;
  no_failure = refl;
  sends = λ n. refl;
  small = (omega arith, (omega arith, tt));
  whole = refl;
}

only : OnlyOnS3 test around setting "f" "7" peer
unfolding is_file_in_cache lookup_file_in_network neighbours_file_lookup lookup string_discrete
only = record {
  left_cache = peer.world.cache;
  not_cached = refl;
  server_made = refl;
  contacted = [];
  left_peer = record peer {
    requests =
        add_request_in_cache 5 (record { file_name = "f"; request_id = "7"; forwarder_peer = self })
          [];
  };
  looked_up = refl;
  nobody_answers = refl;
}

abbrev key : String → Text
key file_name = b'f' ∷ []

abbrev objects : Text → Option (List ℕ)
objects name = some (1 ∷ 2 ∷ 3 ∷ [])

kept-Serves : (kept : List ℕ) → objects (key "f") ≡ some kept → Serves bucket kept
kept-Serves kept e = subst (Serves bucket) (some-injective _ _ e) bucket-Serves

do_upload-download_example :
    (sent : Chunks) × ((do_download test around setting "f" "7" peer).0 ≡ some (ok (sent, none)))
    × (bytes_sent sent ≡ bodies (chunks events))
do_upload-download_example =
    do_upload-download test around setting "f" "7" peer (pos 10) (some md) events none none
      (b'f' ∷ []) (pos 3) redirect (2 ∷ 2 ∷ 2 ∷ []) (1 ∷ 2 ∷ 3 ∷ []) uploads reads_body key objects
      refl refl kept-Serves only
