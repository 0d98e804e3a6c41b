-- ===== src/Edge/Server/Delete/Tests.antt =====
-- A deletion of edge/server/server_services.go on a concrete cache.
use sdcc_project.Base.{ℕ, String, Bool, true, false, [], ◌∷◌, none, err, In}
use sdcc_project.Base.Int.{pos}
use sdcc_project.Edge.Cache.{File, World, System}
use sdcc_project.Edge.Cache.Valid.{Named}
use sdcc_project.Edge.Peer.Services.{Peer}
use sdcc_project.Edge.S3.Interface.{Service}

abbrev healthy : System
healthy = record {
  opens = λ name. true;
  locks = λ name. true;
  removes = λ name. true;
  unlocks = λ name. true;
  lists = true;
  free_memory = λ disk. pos 0;
}

abbrev file : File
file = record { file_name = "f"; file_size = pos 3; timestamp = 0; popularity = pos 1 }

abbrev cached : World
cached = record {
  cache = record {
    array = 0 ∷ [];
    count = 1;
    caching_map = ("f", 0) ∷ [];
    heap = file ∷ [];
    cache_mutex = false;
  };
  disk = ("f", 1 ∷ 2 ∷ 3 ∷ []) ∷ [];
}

abbrev peer : Peer Bool
peer = record {
  requests = [];
  adjacents = record { peer_conns = []; filter_map = [] };
  world = cached;
}

-- The object is not on S3.
abbrev s3 : Service
s3 = record {
  head_object = λ name. err (record { code = "NotFound"; text = "404" });
  delete_object = λ name. none;
  wait_until_object_not_exists = λ name. none;
}

abbrev test : Bool → String → Bool
test filter name = filter

abbrev Listed : String × ℕ → Type 0
Listed e = Named (file ∷ []) e.0 e.1 × In e.1 (0 ∷ [])
