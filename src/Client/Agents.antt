-- ===== src/Client/Agents.antt =====
-- msg-server/client/client.go: the agent of a user and the members below the user, which are read from
-- mysql each time that they are asked for.
use instant_message.Prelude.{
  ℕ, zero, suc, String, ◌≡◌, refl, Bool, ◌||◌, Option, none, some, List, [], ◌∷◌, ◌==◌, arith,
  if◌then◌else◌,
}
use instant_message.Prelude.GoMap.{insert, has_key, lookup}
use instant_message.Client.{Client, AgentInfo}
use instant_message.Client.Session.{
  Env, Session, M, next, Call, select_agent_id, select_agent_name, select_members, get_portrait,
}

abbrev or_empty : Option String → String
or_empty none = ""
or_empty (some t) = t

module _ (e : Env) where
  abbrev info : ℕ → String → List Call → AgentInfo
  info id name t = record {
    agent_id = id;
    agent_username = name;
    agent_portrait_url = or_empty (e.text t (get_portrait id));
  }

  abbrev set_agent : ℕ → Session → Session
  set_agent id s =
      let name = or_empty (e.text s.trace (select_agent_name s.client.account_id)) in
      let t = select_agent_name s.client.account_id ∷ s.trace in
      record {
        client = record s.client { agent_info = info id name t };
        trace = get_portrait id ∷ t;
      }

  -- An agent id of 0 is none.
  abbrev load_agent : Option ℕ → Session → Session
  load_agent none s = s
  load_agent (some zero) s = s
  load_agent (some (suc id)) s = set_agent (suc id) s

  load_rows : List (ℕ × String) → Session → Session
  load_rows [] s = s
  load_rows ((id, name) ∷ rows) s = load_rows rows (record {
    client = record s.client { members = insert id (info id name s.trace) s.client.members };
    trace = get_portrait id ∷ s.trace;
  })

  abbrev load_members : Option (List (ℕ × String)) → Session → Session
  load_members none s = s
  load_members (some rows) s = load_rows rows s

  -- `GetAgentAndMember`.
  unfoldable pub get_agent_and_member : Session → Session
  unfolding load_rows
  get_agent_and_member s =
      let me = s.client.account_id in
      let asked = record s { trace = select_agent_id me ∷ s.trace } in
      let s1 = load_agent (e.id s.trace (select_agent_id me)) asked in
      load_members (e.members s1.trace (select_members me))
        (record s1 { trace = select_members me ∷ s1.trace })

  abbrev pub is_related : ℕ → Client → Bool
  is_related id c = (c.agent_info.agent_id == id) || has_key id c.members

  -- `IsAgentOrMember`.
  abbrev pub is_agent_or_member : {R : Type 0} → ℕ → M R Bool
  is_agent_or_member id s = let s' = get_agent_and_member s in next (is_related id s'.client) s'

-- `GetAgentOrMemberUsername`, after its look-up.
abbrev pub username_of : Option AgentInfo → String
username_of none = ""
username_of (some info) = info.agent_username

abbrev pub known_username : ℕ → Client → String
known_username id c =
    if id == c.agent_info.agent_id
    then c.agent_info.agent_username
    else username_of (lookup id c.members)

abbrev pub get_agent_or_member_username : {R : Type 0} → Env → ℕ → M R String
get_agent_or_member_username e id s =
    let s' = get_agent_and_member e s in next (known_username id s'.client) s'

-- The calls of a look-up are none that `P` minds.
module _ (P : List Call → Type 0)
    (quiet : (t : List Call) (id : ℕ)
      → P t
      → P (select_agent_id id ∷ t)
        × P (select_agent_name id ∷ t)
        × P (select_members id ∷ t)
        × P (get_portrait id ∷ t))
    (e : Env) where
  load_agent-quiet : (o : Option ℕ) (s : Session) → P s.trace → P (load_agent e o s).trace
  load_agent-quiet none s h = h
  load_agent-quiet (some zero) s h = h
  load_agent-quiet (some (suc id)) s h =
      let me = s.client.account_id in
      (quiet (select_agent_name me ∷ s.trace) (suc id) (quiet s.trace me h).1).3

  load_rows-quiet :
      (rows : List (ℕ × String)) (s : Session) → P s.trace → P (load_rows e rows s).trace
  unfolding load_rows
  load_rows-quiet [] s h = h
  load_rows-quiet ((id, name) ∷ rows) s h = load_rows-quiet rows _ (quiet s.trace id h).3

  load_members-quiet :
      (o : Option (List (ℕ × String))) (s : Session) → P s.trace → P (load_members e o s).trace
  load_members-quiet none s h = h
  load_members-quiet (some rows) s h = load_rows-quiet rows s h

  pub get_agent_and_member-quiet : (s : Session) → P s.trace → P (get_agent_and_member e s).trace
  unfolding get_agent_and_member
  get_agent_and_member-quiet s h =
      let me = s.client.account_id in
      let asked : Session = record s { trace = select_agent_id me ∷ s.trace } in
      let s1 = load_agent e (e.id s.trace (select_agent_id me)) asked in
      let h1 = load_agent-quiet (e.id s.trace (select_agent_id me)) asked (quiet s.trace me h).0 in
      load_members-quiet (e.members s1.trace (select_members me))
        (record s1 { trace = select_members me ∷ s1.trace }) (quiet s1.trace me h1).2

-- A look-up changes the agent and the members only.
abbrev pub SameUser : Client → Client → Type 0
SameUser c d =
    (d.account_id ≡ c.account_id)
    × (d.nick_name ≡ c.nick_name)
    × (d.contacts ≡ c.contacts)
    × (d.black_list ≡ c.black_list)

module _ (e : Env) where
  load_agent-SameUser : (o : Option ℕ) (s : Session) → SameUser s.client (load_agent e o s).client
  load_agent-SameUser none s = (refl, refl, refl, refl)
  load_agent-SameUser (some zero) s = (refl, refl, refl, refl)
  load_agent-SameUser (some (suc id)) s = (refl, refl, refl, refl)

  load_rows-SameUser :
      (rows : List (ℕ × String)) (s : Session) → SameUser s.client (load_rows e rows s).client
  unfolding load_rows
  load_rows-SameUser [] s = (refl, refl, refl, refl)
  load_rows-SameUser ((id, name) ∷ rows) s = load_rows-SameUser rows _

  load_members-SameUser :
      (o : Option (List (ℕ × String))) (s : Session) → SameUser s.client (load_members e o s).client
  load_members-SameUser none s = (refl, refl, refl, refl)
  load_members-SameUser (some rows) s = load_rows-SameUser rows s

  pub get_agent_and_member-SameUser :
      (s : Session) → SameUser s.client (get_agent_and_member e s).client
  unfolding get_agent_and_member
  get_agent_and_member-SameUser s =
      let me = s.client.account_id in
      let asked : Session = record s { trace = select_agent_id me ∷ s.trace } in
      let s1 = load_agent e (e.id s.trace (select_agent_id me)) asked in
      ground (
        arith,
        load_agent-SameUser (e.id s.trace (select_agent_id me)) asked,
        load_members-SameUser (e.members s1.trace (select_members me))
            (record s1 { trace = select_members me ∷ s1.trace }),
      )
