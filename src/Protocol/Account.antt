-- ===== src/Protocol/Account.antt =====
-- From the client's command line and configuration file to the credentials that the server reads.
use teavpn.Common.{ℕ, ◌≡◌, List, take}
use teavpn.Config.CliCfg.{CliCfg}

-- A text that a field of 256 bytes can keep whole.
abbrev Short : List ℕ → Type 0
Short s = take 255 s ≡ s
