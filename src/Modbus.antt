-- ===== src/Modbus.antt =====
-- apps/agri_station_demo/agri_modbus_tcp.hpp: Modbus TCP between the station and its field devices.
pub mod Bytes
pub mod Bank
pub mod Pdu
pub mod Socket
pub mod Server
pub mod Client
pub mod Exchange
pub mod Responses
