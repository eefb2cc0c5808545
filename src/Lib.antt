-- ===== src/Lib.antt =====
-- instant-message: a chat server. A msg-server keeps the clients that are connected to it, serves their
-- messages and passes messages on to the servers of other users through redis.
--
-- The parts and how they interact: a terminal's bytes are cut into frames (Wire), a frame is handed to
-- the handler that its id names (Client.Dispatch), the handler changes the client's state in memory, asks
-- and changes mysql and redis, and answers its terminal. What concerns another user goes through the
-- queue: the frame is routed to that user's terminals (Online), or, in a group, to the members that are
-- connected (Groups), which the events of the handlers keep (Client.Groups.Events). A login takes the place
-- of the client that is connected under its account and terminal (Login). Ids come from Snowflake.
--
--   Prelude     library names passed on, Boolean tests, lists, Go maps as association lists.
--   Wire        common-library/packet/packet.go, im-library/im_net/socket.go, ReadPacket2 and Pb2Bytes of
--               common-library/function/function.go, im-library/redisPubSub/redisPubSub.go.
--   Client      msg-server/client/client.go: Client is the struct Client, is_friend is IsFriend, and so on.
--     Session   what a handler does outside the client: a call is recorded in the trace of the session,
--               and the environment answers it from the calls before. A handler c2s_x models C2SX.
--     Saving    the writes of client.go, mysqlOpt.go, redisOpt.go and the helpers of friends.go.
--     Agents    GetAgentAndMember, IsAgentOrMember and GetAgentOrMemberUsername of client.go.
--     BlackList, Deletion, Requests, Remarks    the handlers of msg-server/client/friends.go.
--     Chat, History    the handlers of msg-server/client/privateChat.go, on the messages of Message.
--     Receiving the handlers of msg-server/client/MQMsg.go for private chat and friends.
--     Groups    the handlers of msg-server/client/chatGroup.go: Creation, Joining, Invitation, Leaving, Talk
--               and History, on the messages of GroupMessage; Receiving, those of MQMsg.go about groups;
--               Events, subscribeEvent of onlineChatGroupManager.go; Loading, LoadChatGroupInfo and
--               JoinChatGroup of redisOpt.go and SaveChatGroupLastMsgTimestamp of mysqlOpt.go.
--     Flows     how statements on the parts of a handler are put together.
--     Mirror    msg-server/otherTerminal/otherTerminal.go: the events that reach the same account's client
--               on its other terminal.
--     Dispatch  registerLogicCall and the loop handleMsg, for the handlers above.
--     Keyed     the invariant of a client's maps; each child Keeps shows that its handlers keep it.
--     Weibo     the posts that friends show each other, on the messages of WeiboMessage. Publishing, Liking,
--               Replying and Browsing: the handlers of msg-server/client/weibo.go; Settings, those of
--               weiboAllowQuery.go; Cover, those of weiboCover.go; Receiving, those of MQMsg.go about posts.
--     Account   the handlers of msg-server/client/account.go and rename.go, on the messages of AccountMessage;
--               Searching, C2SFindUser, with getSomeoneWeiboRds of weibo.go.
--     Redis     the redis sets that a trace describes.
--   Online      msg-server/clientManager/clientManager.go, msg-server/msgServerApp/recvMQMessage.go.
--   Groups      msg-server/onlineChatGroupManager/onlineChatGroupManager.go.
--   Login       the hand-over of msg-server/msgServerApp/clientLogin.go, with KickClient and WatchCloseSignal
--               of clientManager.go and Close of client.go: a relation between states of the server, one
--               step for each thing that a goroutine does at once.
--     Admission what clientLogin, userNameLogin and registerAccount check before the hand-over.
--     Codes     getVerificationCode and forgetPassword of clientLogin.go.
--     Offline   handleOfflineFriendData and GetDeletedFriendMsg of clientLogin.go.
--   EventManager msg-server/eventmanager/eventmanager.go.
--   Colors      common-library/convert/msg.go.
--   Snowflake   common-library/snowflake/snowflake.go.
--
-- An int64 is its bit pattern, a number below 2 ^ 64; where the code compares signed numbers the model
-- does (signed_ltb, positive). Mysql, redis, the queue, the clock, protobuf and the push service are not
-- in the repository: they are the fields of Env, functions of all the calls made before, so that a
-- theorem about a handler holds for every way in which they answer. A hypothesis on them is named where
-- a theorem needs it. A message that is unmarshalled is its fields, with a flag that says whether it was;
-- what is read on of a nil pointer is none, but for the handlers of posts and of the account, where it
-- ends the handler with a call `crash` or `account_crash`, as the assertion that fails in C2SAgreeJoinChatGroup
-- ends it with `member_type_panic`: nothing recovers there.
--
-- Loops are structural, but for the reading of a stream, which is on fuel; more fuel than the stream has
-- bytes is enough, since every frame holds a header. Two readings after the first bound the sleeps of
-- the id generator.
--
-- Locks make each accessor and each operation on a table one step; the goroutines of one client, its
-- channels and what happens when a channel is full are not modelled. In the hand-over the key that a
-- login sets in redis is a step of its own. Setex overwrites the key, and it ends by itself after thirty
-- seconds, so it keeps no login out: two logins of one account may overlap. A flag of the relation says
-- whether they do; theorems that take it as false say so.
--
-- Not modelled: what a login answers, the other servers, the timers and the log output.
pub mod Prelude
pub mod Client
pub mod Wire
pub mod Online
pub mod Groups
pub mod Snowflake
pub mod Login
pub mod EventManager
pub mod Colors
