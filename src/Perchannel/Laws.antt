-- ===== src/Perchannel/Laws.antt =====
-- What `set` leaves alone and what it refuses, in blconfd/blconf-backend-perchannel-xml.c.
