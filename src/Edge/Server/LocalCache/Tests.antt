-- ===== src/Edge/Server/LocalCache/Tests.antt =====
-- Reads of a cached file by edge/server/server_services.go in concrete orders.
use sdcc_project.Base.{◌≡◌, refl, [], ◌∷◌, some, none, true, length, arith}
use sdcc_project.Edge.S3.Download.{concat}
use sdcc_project.Edge.Server.{failure_message}
use sdcc_project.Edge.Server.LocalCache.{
  LocalRead, body_message, read_from_local_cache, read_file, send_message, deliver, finish, Local,
  start, run,
}
use sdcc_project.Edge.Server.LocalCache.Overwritten.{hasty, calm, Sends, hasty-overwrites}
use sdcc_project.Edge.Server.LocalCache.Sizes.{run-size}

hasty-overwrites_example :
    Sends ((1 ∷ 2 ∷ []) ∷ (3 ∷ 4 ∷ []) ∷ []) (run 2 5 calm (start 2 (1 ∷ 2 ∷ 3 ∷ 4 ∷ [])))
    × Sends ((3 ∷ 4 ∷ []) ∷ (3 ∷ 4 ∷ []) ∷ []) (run 2 5 hasty (start 2 (1 ∷ 2 ∷ 3 ∷ 4 ∷ [])))
hasty-overwrites_example = hasty-overwrites 1 3 (2 ∷ []) (4 ∷ []) 5 refl (omega arith)

abbrev at_end : Local
at_end = record {
  unread = [];
  buffer = 3 ∷ 2 ∷ [];
  read_bytes = none;
  queue = [];
  received = (3 ∷ 2 ∷ []) ∷ (3 ∷ []) ∷ [];
  closed = true;
}

run-hasty : run 2 5 hasty (start 2 (1 ∷ 2 ∷ 3 ∷ [])) ≡ some at_end
unfolding run
run-hasty = refl

run-size_example : length (concat at_end.received) ≡ 3
run-size_example = run-size 2 5 (1 ∷ 2 ∷ 3 ∷ []) hasty at_end run-hasty refl refl

-- A file of three bytes in chunks of two; then one whose second read fails, and one that cannot be opened.
abbrev three_bytes : LocalRead
three_bytes = record {
  open_error = none;
  chunk_size = 2;
  capacity = 1;
  content = 1 ∷ 2 ∷ 3 ∷ [];
  actions = read_file ∷ send_message ∷ deliver ∷ read_file ∷ send_message ∷ deliver ∷ finish ∷ [];
  read_error = none;
}

whole_file :
    read_from_local_cache three_bytes
    ≡ some (body_message (1 ∷ 2 ∷ []) ∷ body_message (3 ∷ []) ∷ [], true)
unfolding read_from_local_cache
whole_file = refl

failing_read :
    read_from_local_cache (record three_bytes {
      actions = read_file ∷ send_message ∷ deliver ∷ [];
      read_error = some "lost";
    })
    ≡ some (body_message (1 ∷ 2 ∷ []) ∷ failure_message "lost" ∷ [], true)
unfolding read_from_local_cache
failing_read = refl

unopened :
    read_from_local_cache (record three_bytes { open_error = some "gone" })
    ≡ some (failure_message "gone" ∷ [], true)
unfolding read_from_local_cache
unopened = refl
