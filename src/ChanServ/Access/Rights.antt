-- ===== src/ChanServ/Access/Rights.antt =====
-- chanserv.c `check_access`: the rights that a level gives.
