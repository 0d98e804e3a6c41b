-- ===== src/Edge/Server/Delete/Removed.antt =====
-- What a deletion leaves (edge/server/server_services.go).
use sdcc_project.Base.{
  ℕ, ◌≡◌, String, string_discrete, Bool, true, List, [], Option, none, some, Outcome, ok, ◌↔◌,
}
use sdcc_project.Base.Dict.{lookup, has_key}
use sdcc_project.Edge.Cache.{Disk, Cache, World, System, bump, modify}
use sdcc_project.Edge.Cache.Valid.{IsValid}
use sdcc_project.Edge.Peer.{EdgePeer}
use sdcc_project.Edge.Peer.Services.{Peer}
use sdcc_project.Edge.S3.Interface.{Service}
use sdcc_project.Edge.Server.Requests.{CustomError}

-- The file can be removed from the disk.
pub record IsRemovable (sys : System) (file_name : String) (disk : Disk) : Type 0 where
  pub on_disk : has_key string_discrete file_name disk ≡ true
  pub opened : sys.opens file_name ≡ true
  pub locked : sys.locks file_name ≡ true
  pub removed : sys.removes file_name ≡ true
  pub unlocked : sys.unlocks file_name ≡ true

abbrev counted : ℕ → Cache → Cache
counted ref c = record c { heap = modify ref bump c.heap }

-- What is left of the file in the cache.
abbrev pub Gone : String → World → Type 0
Gone file_name w = IsValid w.cache × (lookup string_discrete file_name w.cache.caching_map ≡ none)

module _ {Filter : Type 0} (test : Filter → String → Bool) (sys : System) (now : ℕ) (s3 : Service)
    (file_name request_id : String) (peer : Peer Filter) where
  abbrev pub Leaves :
      Option String → Outcome ⊥ (Option CustomError × List EdgePeer × Peer Filter) → Type 0
  Leaves answer o =
      (returned : Option CustomError) × (contacted : List EdgePeer) × (peer' : Peer Filter) × (o
        ≡ ok (returned, contacted, peer'))
      × Gone file_name peer'.world
      × ((returned ≡ none) ↔ (answer ≡ none))
      × ((e : String) → answer ≡ some e → contacted ≡ [])
