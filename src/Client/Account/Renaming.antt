-- ===== src/Client/Account/Renaming.antt =====
-- Where a new name of the user arrives: `C2SRename` (rename.go).
use text.Mathlib.Text.{◌==◌ as same_text}
use instant_message.Prelude.{
  ℕ, String, ◌≡◌, refl, true, false, ◌&&◌, ◌==◌, is_some, Option, none, some, List, [], ◌∷◌, arith,
  if◌then◌else◌,
}
use instant_message.Prelude.Members.{contains}
use instant_message.Client.{Client, get_chat_group_ids}
use instant_message.Client.Message.{is_blank}
use instant_message.Client.GroupMessage.{Member, get_member}
use instant_message.Client.AccountMessage.{set_member, set_brief_info, set_account_name}
use instant_message.Client.Session.{Call, Env, start, account_call, group_call}
use instant_message.Client.Groups.{each}
use instant_message.Client.Account.{rename_member, rename_in, rename_everywhere, c2s_rename}

-- The name under which the user was last stored as a member of the group.
abbrev pub name_in : (group user : ℕ) → List Call → Option String
name_in group user [] = none
name_in group user (account_call (set_member k u member) ∷ cs) =
    if k == group && u == user then some member.user_nick_name else name_in group user cs
name_in group user (c ∷ cs) = name_in group user cs

module _ (e : Env) (me : ℕ) (name : String)
    (marshals : (member : Member) → e.marshal_member member ≡ true) (k : ℕ) where
  rename_member-name_in :
      (group : ℕ) (o : Option Member) (t : List Call)
      → is_some o ≡ true
      → name_in k me (rename_member e group me name o t)
        ≡ (if group == k then some name else name_in k me t)
  rename_member-name_in group none t h = ground (arith, h)
  rename_member-name_in group (some member) t h =
      ground (arith, marshals (record member { user_nick_name = name }))

  each-name_in :
      (groups : List ℕ) (t : List Call)
      → ((u : List Call) (group : ℕ)
          → contains group groups ≡ true
          → is_some (e.member u (group_call (get_member group me))) ≡ true)
      → name_in k me (each (rename_in e me name) groups t)
        ≡ (if contains k groups then some name else name_in k me t)
  unfolding contains
  each-name_in [] t members = refl
  each-name_in (group ∷ groups) t members =
      let asked : Call = group_call (get_member group me) in
      ground (
        arith,
        rename_member-name_in group (e.member t asked) (asked ∷ t) (members t group (ground arith)),
        each-name_in groups (rename_in e me name group t)
            (λ u j h. members u j (ground (arith, h))),
      )

-- Where redis gives the user as a member of each of the user's groups, and the member can be marshalled, a
-- new name that is not empty is the name of the client, and the name of the member that is stored in each of
-- these groups and in no other.
pub rename_reaches_groups :
    (e : Env) (c : Client) (name : String)
    → (differs : same_text c.nick_name name ≡ false) → (given : is_blank name ≡ false)
    → (members : (t : List Call) (group : ℕ)
        → contains group (get_chat_group_ids c) ≡ true
        → is_some (e.member t (group_call (get_member group c.account_id))) ≡ true)
    → (marshals : (member : Member) → e.marshal_member member ≡ true) → (k : ℕ)
    → let s = c2s_rename e true name (start c) in
      (s.client.nick_name ≡ name)
      × (name_in k c.account_id s.trace
          ≡ (if contains k (get_chat_group_ids c) then some name else none))
unfolding c2s_rename rename_everywhere get_chat_group_ids
rename_reaches_groups e c name differs given members marshals k = ground (
  arith,
  differs,
  given,
  each-name_in e c.account_id name marshals k (get_chat_group_ids c)
      (account_call (set_account_name c.account_id name)
        ∷ account_call (
            set_brief_info (record {
              account_id = c.account_id;
              nickname = name;
              user_name = c.user_name;
              head_portrait = c.head_portrait;
            }))
        ∷ [])
      members,
)
