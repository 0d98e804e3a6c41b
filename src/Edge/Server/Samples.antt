-- ===== src/Edge/Server/Samples.antt =====
-- An upload, a node and a bucket for the tests of edge/server.
use sdcc_project.Base.{
  ◌≡◌, refl, String, string_discrete, true, false, List, [], ◌∷◌, none, some, ok,
}
use sdcc_project.Base.Int.{pos}
use sdcc_project.Edge.S3.{read}
use sdcc_project.Edge.S3.Interface.{upload_body}
use sdcc_project.Edge.Server.{Event, cache_returned, received, stream_ended, Redirect}
use sdcc_project.Edge.Server.Requests.{Metadata}
use sdcc_project.Edge.Server.Upload.{ended, do_upload}
use sdcc_project.Base.{◌≡◌, refl, String, Bool, true, false, [], ◌∷◌, none, some, ok}
use sdcc_project.Base.Int.{pos}
use sdcc_project.Edge.Cache.{World}
use sdcc_project.Edge.Peer.{EdgePeer}
use sdcc_project.Edge.Peer.Services.{Setting, Peer}
use sdcc_project.Edge.S3.{nothing}
use sdcc_project.Edge.Server.{received, stream_ended}
use sdcc_project.Edge.Server.Download.{Bucket}

abbrev pub md : Metadata
md =
    ("request_id", (b'7' ∷ []) ∷ [])
    ∷ ("file_name", (b'f' ∷ []) ∷ [])
    ∷ ("file_size", (b'3' ∷ []) ∷ [])
    ∷ []

abbrev pub events : List Event
events =
    received (1 ∷ 2 ∷ []) ∷ cache_returned (some "full") ∷ received (3 ∷ []) ∷ stream_ended ∷ []

abbrev pub redirect : Redirect
redirect = record {
  is_file_cacheable = false;
  main_channel =
      record { body = 1 ∷ 2 ∷ []; failure = none } ∷ record { body = 3 ∷ []; failure = none } ∷ [];
  cache_channel = record { body = 1 ∷ 2 ∷ []; failure = none } ∷ [];
  main_channel_error = none;
  grpc_error = none;
}

pub uploads :
    do_upload (pos 10) (some md) events none none ≡ ok (ended none (b'f' ∷ []) (pos 3) redirect)
unfolding do_upload string_discrete
uploads = refl

pub reads_body :
    upload_body
      (2 ∷ 2 ∷ 2 ∷ [])
      (record { residual_chunk = []; message_channel = redirect.main_channel })
    ≡ some (ok (1 ∷ 2 ∷ 3 ∷ []))
unfolding upload_body read
reads_body = refl

abbrev pub self : EdgePeer
self = record { peer_addr = "self" }

abbrev pub empty : World
empty = record {
  cache = record { array = []; count = 0; caching_map = []; heap = []; cache_mutex = false };
  disk = [];
}

abbrev pub peer : Peer Bool
peer = record {
  requests = [];
  adjacents = record { peer_conns = []; filter_map = [] };
  world = empty;
}

abbrev pub setting : Setting
setting = record {
  draw = λ i. 0;
  now = 5;
  request_cache_ttl = 1;
  max_contactable = 2;
  self_peer = self;
  connects = λ name. true;
  sends = λ name. true;
}

abbrev pub bucket : Bucket
bucket = record {
  service = record {
    head_object = λ name. ok (pos 3);
    delete_object = λ name. none;
    wait_until_object_not_exists = λ name. none;
  };
  grow = λ c n. n;
  describe = λ e. e;
  notices = λ n. nothing;
  flush_size = 2;
  parts = (1 ∷ 2 ∷ []) ∷ (3 ∷ []) ∷ [];
  failure = none;
  send = λ n. none;
}

abbrev pub test : Bool → String → Bool
test filter name = filter
