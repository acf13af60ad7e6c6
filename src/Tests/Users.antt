-- ===== src/Tests/Users.antt =====
-- The theorems on the user files at concrete inputs.
use teavpn.Common.{ℕ, ◌≡◌, refl, Option, some, List, [], ◌∷◌, true}
use teavpn.Packet.{cstr, strncpy, strncpy2}
use teavpn.User.{
  check_user_file, parse_all, userfile_parser, userfile_parse_auth, userfile_parse_iface, same_text,
  IniFile, IfInfo, all_valid, teavpn2_auth, zeroed_ctx, auth_text, iface_text, password_text,
  ipv4_text,
}
use teavpn.User.Laws.{Decides, teavpn2_auth_lem}

-- The only file has the password "c" and the address "10".
abbrev files : List ℕ → Option IniFile
files path = some (record {
  entries =
      record { section = auth_text; name = password_text; val = 99 ∷ [] }
      ∷ record { section = iface_text; name = ipv4_text; val = 49 ∷ 48 ∷ [] }
      ∷ [];
  parsed = true;
})

abbrev no_settings : IfInfo
no_settings = zeroed_ctx.iff

teavpn2_auth_lem_example :
    Decides
      (λ s. 0)
      files
      (100 ∷ [])
      (97 ∷ 98 ∷ [])
      (99 ∷ [])
      no_settings
      (teavpn2_auth (λ s. 0) files (100 ∷ []) (97 ∷ 98 ∷ []) (99 ∷ []) no_settings)
teavpn2_auth_lem_example =
    teavpn2_auth_lem (λ s. 0) files (100 ∷ []) (97 ∷ 98 ∷ []) (99 ∷ []) no_settings

-- The user of the example is let in.
let_in_run : (teavpn2_auth (λ s. 0) files (100 ∷ []) (97 ∷ 98 ∷ []) (99 ∷ []) no_settings).0 ≡ true
unfolding teavpn2_auth check_user_file parse_all userfile_parser userfile_parse_auth
    userfile_parse_iface same_text strncpy2 strncpy cstr all_valid
let_in_run = refl
