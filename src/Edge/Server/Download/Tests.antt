-- ===== src/Edge/Server/Download/Tests.antt =====
-- Downloads of edge/server/server_services.go on concrete requests.
use sdcc_project.Edge.Server.Samples.{peer, setting, bucket, test}
use sdcc_project.Base.{◌≡◌, refl, [], ◌∷◌, none, some, ok}
use sdcc_project.Base.Int.{pos}
use sdcc_project.Base.Dict.{lookup}
use sdcc_project.Edge.Peer.Lookup.{neighbours_file_lookup}
use sdcc_project.Edge.Server.{redirect_stream_from}
use sdcc_project.Edge.Server.{received, stream_ended}
use sdcc_project.Edge.Server.LocalCache.{finish}
use sdcc_project.Edge.Server.Download.{Offer, Surroundings, do_download}
use sdcc_project.Edge.Server.Download.Delivered.{Gets, do_download-Delivers}

-- The first edge node cannot be reached, the second has the file.
abbrev unreachable : Offer
unreachable = record {
  file_size = pos 3;
  owner = record {
    dial = some "down";
    download_from_edge = none;
    events = [];
    last = none;
    close_send = none;
  };
  send = λ n. none;
}

abbrev reachable : Offer
reachable = record {
  file_size = pos 3;
  owner = record {
    dial = none;
    download_from_edge = none;
    events = received (1 ∷ 2 ∷ []) ∷ received (3 ∷ []) ∷ stream_ended ∷ [];
    last = none;
    close_send = none;
  };
  send = λ n. none;
}

abbrev around : Surroundings
around = record {
  max_size = pos 10;
  local_read = record {
    open_error = none;
    chunk_size = 2;
    capacity = 1;
    content = [];
    actions = finish ∷ [];
    read_error = none;
  };
  local_send = λ n. none;
  lookup_server = none;
  offers = unreachable ∷ reachable ∷ [];
  bucket = bucket;
}

downloads :
    (do_download test around setting "f" "7" peer).0
    ≡ some (ok ((1 ∷ 2 ∷ [], 0) ∷ (3 ∷ [], 1) ∷ [], none))
unfolding do_download lookup neighbours_file_lookup redirect_stream_from
downloads = refl

do_download-Delivers_example : Gets around "f" ((1 ∷ 2 ∷ [], 0) ∷ (3 ∷ [], 1) ∷ [])
do_download-Delivers_example =
    do_download-Delivers test around setting "f" "7" peer ((1 ∷ 2 ∷ [], 0) ∷ (3 ∷ [], 1) ∷ [])
      downloads
