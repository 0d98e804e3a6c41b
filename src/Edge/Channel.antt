-- ===== src/Edge/Channel.antt =====
-- edge/redirection_channel/redirection_channel.go: what goes over the two channels of a redirection. A
-- byte is a number below 256, an error is its text.
use sdcc_project.Base.{ℕ, String, List, Option}

pub record Message : Type 0 where
  pub body : List ℕ
  pub failure : Option String
