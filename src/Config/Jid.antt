-- ===== src/Config/Jid.antt =====
-- config.go: `supportedChatJID` decides which chat JIDs an allowlist may hold.
use wa_agent_pipeline.Base.{
  ℕ, ◌≤◌, Text, ◌≡◌, ◌≢◌, ◌↔◌, ◌⊎◌, inl, inr, refl, true, false, List, [], ◌∷◌, ◌++◌, arith, All,
  contains, ==_iff, text_eq, nat_eq,
}
use wa_agent_pipeline.Texts.{text, split, is_digit}
use wa_agent_pipeline.Texts.Split.{split_two_iff}
use wa_agent_pipeline.Config.{all_digits, supported_parts, supported_chat_jid}

abbrev pub IsDigit : ℕ → Type 0
IsDigit r = (b'0' ≤ r) × (r ≤ b'9')

abbrev group_server : Text
group_server = text "g.us"

abbrev phone_server : Text
phone_server = text "s.whatsapp.net"

abbrev linked_server : Text
linked_server = text "lid"

-- A group, a phone number or a linked identity; the last two have a number for a user.
abbrev pub IsServerFor : Text → Text → Type 0
IsServerFor user server =
    (server ≡ group_server)
    ⊎ (((server ≡ phone_server) ⊎ (server ≡ linked_server)) × All IsDigit user)

pub record IsChatJid (jid user server : Text) : Type 0 where
  pub parts : jid ≡ user ++ b'@' ∷ server
  pub named : user ≢ []
  pub user_plain : contains user b'@' ≡ false
  pub server_known : IsServerFor user server

all_digits-All : (s : Text) → all_digits s ≡ true → All IsDigit s
unfolding all_digits is_digit
all_digits-All [] h = tt
all_digits-All (c ∷ s) h = (ground arith, all_digits-All s (ground arith))

All-all_digits : (s : Text) → All IsDigit s → all_digits s ≡ true
unfolding all_digits is_digit
All-all_digits [] h = refl
All-all_digits (c ∷ s) h = ground (arith, All-all_digits s)

IsServerFor-plain : (user server : Text) → IsServerFor user server → contains server b'@' ≡ false
unfolding contains
IsServerFor-plain user server (inl g) = rw g
IsServerFor-plain user server (inr (inl p, d)) = rw p
IsServerFor-plain user server (inr (inr l, d)) = rw l

server_known :
    (user server : Text)
    → supported_parts (user ∷ server ∷ []) ≡ true
    → (user ≢ []) × IsServerFor user server
server_known user server h = ground (
  arith,
  ==_iff user [],
  ==_iff server group_server,
  ==_iff server phone_server,
  ==_iff server linked_server,
  all_digits-All user,
)

parts_supported :
    (user server : Text)
    → user ≢ []
    → IsServerFor user server
    → supported_parts (user ∷ server ∷ []) ≡ true
parts_supported user server n k = ground (
  arith,
  ==_iff user [],
  ==_iff server group_server,
  ==_iff server phone_server,
  ==_iff server linked_server,
  All-all_digits user,
)

IsChatJid-of_parts :
    (jid : Text) (parts : List Text)
    → split b'@' jid ≡ parts
    → supported_parts parts ≡ true
    → (user : Text) × (server : Text) × IsChatJid jid user server
IsChatJid-of_parts jid [] e h = absurd (ground arith)
IsChatJid-of_parts jid (user ∷ []) e h = absurd (ground arith)
IsChatJid-of_parts jid (user ∷ server ∷ []) e h =
    let cut = (split_two_iff b'@' jid user server).0 e in
    let known = server_known user server h in
    (
      user,
      server,
      record { parts = cut.0; named = known.0; user_plain = cut.1; server_known = known.1 },
    )
IsChatJid-of_parts jid (a ∷ b ∷ c ∷ rest) e h = absurd (ground arith)

-- `supportedChatJID` accepts a text exactly when it is `user@server` with a nonempty user that
-- holds no '@', and the server is g.us, or it is s.whatsapp.net or lid and the user is all digits.
pub supported_chat_jid_iff :
    (jid : Text)
    → (supported_chat_jid jid ≡ true)
      ↔ ((user : Text) × (server : Text) × IsChatJid jid user server)
unfolding supported_chat_jid
supported_chat_jid_iff jid = (
  IsChatJid-of_parts jid (split b'@' jid) refl,
  λ (user, server, v).
      rw
        ((split_two_iff b'@' jid user server).1
          (v.parts, v.user_plain, IsServerFor-plain user server v.server_known))
        (parts_supported user server v.named v.server_known),
)
